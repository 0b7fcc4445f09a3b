-- ===== src/Reconcile/Repaired.antt =====
-- src/waitd.py, `reconcile_loops`, for one waiting loop among the others.
use wait_skill.Prelude.{
  ◌≡◌, refl, ap, sym, ◌∙◌, true, false, not, ◌&&◌, ◌||◌, String, some, List, [], ◌∷◌, ◌++◌, ◌==◌,
  ok, elem, arith, inl, inr, Bool-cases, eq_refl, ◌⊎◌,
}
use wait_skill.Loop.State.{LoopState, validate_identity, goal_is_open, is_active, is_waiting}
use wait_skill.Registry.State.{Watcher, ids}
use wait_skill.Registry.Protected.{submit-own, submit-new}
use wait_skill.Jobs.Parse.{has_same_path, is_bad_event_id}
use wait_skill.Jobs.Pairs.{are_pairs}
use wait_skill.Jobs.Timers.{timer_pairs, id_text}
use wait_skill.Jobs.Timers.Current.{take_up-timer}
use wait_skill.Reconcile.{
  Service, Reconciled, LoopStore, holds, reconcile_one, reconcile_from, reconcile_loops,
  start_timer, link, protected_ids, paths,
}
use wait_skill.Reconcile.Steps.{reconcile_one-Stays, link-Stays, protected_ids-waits}

abbrev pub IsEntry : String × String → List (String × String) → Type 0
IsEntry e [] = ⊥
IsEntry e (x ∷ xs) = (x ≡ e) ⊎ IsEntry e xs

known_entry :
    (path cwd : String) (loops : List (String × String))
    → IsEntry (path, cwd) loops
    → elem path (paths loops) ≡ true
unfolding elem
known_entry path cwd [] e = absurd e
known_entry path cwd (x ∷ loops) (inl same) =
    let here : (x.0 == path) ≡ true = ap (λ y. y.0 == path) same ∙ eq_refl path in
    ground (arith, here)
known_entry path cwd (x ∷ loops) (inr later) = ground (arith, known_entry path cwd loops later)

module _ (v : Service) (loops : List (String × String)) (path cwd id : String) (s : LoopState)
    (entry : IsEntry (path, cwd) loops) (valid : validate_identity s ≡ ok tt)
    (active : is_active s.status ≡ true) (waits : is_waiting s.phase ≡ true)
    (watched : s.watch_id ≡ some id) (open_goal : goal_is_open v.goals s ≡ true)
    (fits : are_pairs (timer_pairs v.clock s path ++ ("--remote", (v.submission cwd).endpoint) ∷ [])
      ≡ true)
    (positive : v.outside.is_positive_number (v.clock.timeout s) ≡ true)
    (distinct : has_same_path v.outside.canonical_path []
        (path ∷ v.clock.log path id ∷ v.clock.lock (v.clock.log path id) ∷ [])
      ≡ false)
    (id_ok : is_bad_event_id (some id) ≡ false) (path_kept : (v.submission cwd).within path ≡ path)
    (log_kept : (v.submission cwd).within (v.clock.log path id) ≡ v.clock.log path id)
    (lock_kept : (v.submission cwd).within (v.clock.lock (v.clock.log path id))
      ≡ v.clock.lock (v.clock.log path id))
    (ready : (v.submission cwd).is_ready ≡ true) where
  known : elem path (paths loops) ≡ true
  known = known_entry path cwd loops entry

  submits :
      (r : Reconciled)
      → r.store path ≡ holds s
      → elem id (ids r.watchers) ≡ false
      → elem id (ids (start_timer v loops path cwd s r).watchers) ≡ true
  submits r held new =
      let sub = v.submission cwd in
      let protected = protected_ids r.store loops in
      let waited = protected_ids-waits r.store loops path id s known held watched in
      let (behind, done) = submit-new protected id v.now r.watchers new in
      let taken =
        take_up-timer v.outside sub v.clock s path id v.goals (λ _. some s) refl valid active waits
          watched open_goal fits positive distinct id_ok path_kept log_kept lock_kept protected
          v.now r.watchers behind ready done in
      rw (taken, start_timer) (submit-own protected id v.now r.watchers behind waited done)

  visited :
      (r : Reconciled)
      → r.store path ≡ holds s
      → elem id (ids (reconcile_one v loops (path, cwd) r).watchers) ≡ true
  unfolding reconcile_one
  visited r held =
      let next = link path s r in
      let seen = link-Stays v loops path id s known watched open_goal path s r held in
      let followed : (is_active s.status && not (goal_is_open v.goals s)) ≡ false =
        ground (arith, active, open_goal) in
      let here : (not (is_active s.status) || not (is_waiting s.phase)) ≡ false =
        ground (arith, active, waits) in
      let own : id_text s ≡ id = ground (arith, watched) in
      elim (Bool-cases (elem (id_text s) (ids next.watchers))) [
        | inl there ↦
            rw (held, followed, here, there)
              (ap (λ x. elem x (ids next.watchers)) (sym own) ∙ there)
        | inr missing ↦
            rw (held, followed, here, missing)
              (submits next seen.0 (ap (λ x. elem x (ids next.watchers)) (sym own) ∙ missing))
      ]

  stays_from :
      (left : List (String × String)) (r : Reconciled)
      → r.store path ≡ holds s
      → elem id (ids r.watchers) ≡ true
      → elem id (ids (reconcile_from v loops left r).watchers) ≡ true
  stays_from [] r held there = there
  stays_from (first ∷ left) r held there =
      let next = reconcile_one-Stays v loops path id s known watched open_goal first r held in
      stays_from left (reconcile_one v loops first r) next.0 (next.1 there)

  repaired_from :
      (left : List (String × String)) (r : Reconciled)
      → IsEntry (path, cwd) left
      → r.store path ≡ holds s
      → elem id (ids (reconcile_from v loops left r).watchers) ≡ true
  repaired_from [] r known_here held = absurd known_here
  repaired_from (first ∷ left) r (inl same) held =
      let next = reconcile_one-Stays v loops path id s known watched open_goal first r held in
      stays_from left (reconcile_one v loops first r) next.0 (rw same (visited r held))
  repaired_from (first ∷ left) r (inr later) held =
      let next = reconcile_one-Stays v loops path id s known watched open_goal first r held in
      repaired_from left (reconcile_one v loops first r) later next.0

  -- After reconcile_loops the registry has a watch with the identifier of each known loop that is
  -- valid and active and waits while its goal is open, whatever the other loops are and whatever
  -- the registry was before, when the timer of the loop can be submitted: its texts can stand behind
  -- options, the timeout is positive, the paths are distinct and stay as they are in the directory
  -- of the loop, the identifier is permitted, and the endpoint of codex is ready.
  pub reconcile_loops-repairs :
      (store : LoopStore) (watchers : List Watcher)
      → store path ≡ holds s
      → elem id (ids (reconcile_loops v loops store watchers).watchers) ≡ true
  unfolding reconcile_loops
  reconcile_loops-repairs store watchers held =
      repaired_from loops (record { store = store; watchers = watchers; monitors = [] }) entry held
