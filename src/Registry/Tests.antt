-- ===== src/Registry/Tests.antt =====
-- A small registry.
use wait_skill.Prelude.{
  ℕ, zero, suc, ◌≤◌, ◌≡◌, refl, true, false, List, [], ◌∷◌, String, ◌==◌, elem, inl, inr, select,
  length, err,
}
use text.Mathlib.Text.{starts_with}
use Prim.Native.String
use wait_skill.Registry.State.{
  Watcher, active, completed, is_finished, save, surplus, show, ambiguous_prefix,
}
use wait_skill.Registry.Sorting.{IsIn}
use wait_skill.Registry.Pruning.{are_distinct, save-latest, save-bounded}
use wait_skill.Registry.State.{cancelled, submit, cancel}
use wait_skill.Registry.Identifiers.{submit-IsIn}
use wait_skill.Registry.Cancelled.{cancel-restored}
use wait_skill.Prelude.{◌++◌, ◌≢◌}
use wait_skill.Prelude.{none, some, ok, ◌↔◌}
use wait_skill.Goal.State.{codex}
use wait_skill.Jobs.Parse.{Job}
use wait_skill.Registry.Resume.{first_chars, short_id, resume_instruction, resume_instruction-show}
use wait_skill.Registry.Prefixes.{show-IsIn, show-ambiguous}

abbrev deploy : Watcher
deploy = record { watch_id = "deploy"; state = completed; updated_at = 5 }

abbrev deploy_two : Watcher
deploy_two = record { watch_id = "deploy-2"; state = active; updated_at = 9 }

abbrev registry : List Watcher
registry = deploy ∷ deploy_two ∷ []

save-bounded_example :
    length (select (is_finished ("deploy" ∷ [])) (save ("deploy" ∷ []) registry)) ≤ 256
save-bounded_example = save-bounded ("deploy" ∷ []) registry

show-ambiguous_example : show "deploy" registry ≡ err ambiguous_prefix
show-ambiguous_example =
    show-ambiguous "deploy" registry deploy deploy_two refl (inl refl) (inr (inl refl)) refl refl
      (λ h. cc h)

-- One name for each number.
abbrev name : ℕ → String
name zero = "w"
name (suc n) = String.◌++◌ "w" (name n)

abbrev numbered : ℕ → Watcher
numbered n = record { watch_id = name n; state = completed; updated_at = n }

abbrev below : ℕ → List Watcher
below zero = []
below (suc n) = numbered n ∷ below n

oldest-IsIn : (n : ℕ) → IsIn (numbered 0) (below (suc n))
oldest-IsIn zero = inl refl
oldest-IsIn (suc n) = inr (oldest-IsIn n)

-- The oldest of 257 finished watches gives way.
save-latest_example : (is_finished [] (numbered 0) ≡ true) × (0 ≤ 256)
unfolding elem are_distinct save surplus
save-latest_example =
    save-latest [] (below 257) (numbered 256) (numbered 0) refl (oldest-IsIn 256) refl (inl refl)
      refl

show-IsIn_example :
    IsIn deploy_two registry
    × (starts_with "deploy-2" "deploy-" ≡ true)
    × (("deploy-" == "") ≡ false)
    × ((x : Watcher) → IsIn x registry → starts_with x.watch_id "deploy-" ≡ true → x ≡ deploy_two)
unfolding show
show-IsIn_example = show-IsIn "deploy-" registry deploy_two refl

abbrev other : Watcher
other = record { watch_id = "other"; state = active; updated_at = 11 }

submit-IsIn_example :
    IsIn other (registry ++ other ∷ [])
    × ((x : Watcher) → IsIn x registry → is_finished [] x ≡ false → IsIn x (registry ++ other ∷ []))
unfolding submit save surplus elem are_distinct
submit-IsIn_example = submit-IsIn [] 11 "other" registry (registry ++ other ∷ []) refl refl

-- The watch of deploy-2 is cancelled, and the other one is taken up.
abbrev behind_cancel : List Watcher
behind_cancel = deploy ∷ record deploy_two { state = cancelled; updated_at = 12 } ∷ other ∷ []

cancel-restored_example : other.watch_id ≢ "deploy-2"
unfolding cancel save surplus elem are_distinct
cancel-restored_example =
    cancel-restored [] 12 "deploy-2" (registry ++ other ∷ []) behind_cancel false other refl refl
      (inl refl)

abbrev deploy_job : Job
deploy_job = record {
  watch = record {
    client = codex;
    thread = some "session";
    no_notify = false;
    event_id = some "deploy-2";
    goal_state = some "/goal.json";
    goal_node = some "deploy";
    loop_state = none;
  };
  label = "deployment";
  event_note = some "check it";
  remote = none;
  resume_args = [];
  lock_file = some "/lock";
  log_file = some "/log";
  startup_file = some "/started";
  command = "poll" ∷ [];
}

resume_instruction-show_example :
    ((before : String) × (after : String) × ("$wait goal resume deploy-2 — check it"
        ≡ String.◌++◌ before (String.◌++◌ (short_id "deploy-2") after)))
    × ((show (short_id "deploy-2") registry ≡ ok deploy_two) ↔ (
        (x : Watcher)
        → IsIn x registry
        → starts_with x.watch_id (short_id "deploy-2") ≡ true
        → x ≡ deploy_two))
unfolding are_distinct elem resume_instruction first_chars
resume_instruction-show_example =
    resume_instruction-show deploy_job "$wait goal resume deploy-2 — check it" registry deploy_two
      refl refl refl (inr (inl refl)) refl
