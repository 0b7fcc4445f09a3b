-- ===== src/Daemon/Starts.antt =====
-- What one run of a watch in src/waitd.py does before and at the start of its program.
use wait_skill.Prelude.{
  ℕ, Bool, true, false, ◌≡◌, refl, List, [], ◌∷◌, ◌++◌, all, arith, inl, inr, ◌⊎◌, Option, none,
  some, ap, ◌∙◌,
}
use mathlib.Core.List.{append_assoc}
use wait_skill.Daemon.State.{
  Action, save_log, save_record, execute, notify, persist, retrying, Entry, Disk, WatchResult,
  Phase, activating, queued, running, querying, notifying, awaiting_ack, finalizing, held, released,
}
use wait_skill.Daemon.State
use wait_skill.Daemon.Delivery.{Done}
use wait_skill.Daemon.Program.{
  is_early, World, Options, execute_program, recovered, activate_goal_wait, Activation, active,
  cancelled, timeout, unfinished,
}
use wait_skill.Daemon.Watch.{
  Ending, with_result, start_program, give_up, activate, activate_by, take_up, steps, with_lock,
  watch, run_watch, last_save, goes_on, raised, returned,
}
use wait_skill.Daemon.Once.{
  is_quiet, guarded, quiet-guarded, guarded-append, Keeps, Keeps-quiet, Keeps-guarded,
}
use wait_skill.Daemon.Late.{IsLate, proceed-IsLate, with_result-IsLate}

-- Either the part starts the program as it may, and ends in a late phase, or it does nothing.
abbrev Starts : Entry → Done Ending → Type 0
Starts e d =
    ((guarded (is_early e.phase) false d.actions ≡ true) × (is_early d.entry.phase ≡ false))
    ⊎ ((d.actions ≡ []) × (d.entry ≡ e))

late-Starts : (e : Entry) (d : Done Ending) → IsLate d → Starts e d
late-Starts e d h = inl (quiet-guarded (is_early e.phase) false d.actions h.quiet, h.late)

program_guarded :
    (w : World) (e : Entry) (rest : List Action)
    → all is_quiet rest ≡ true
    → guarded false true ((execute_program w e).actions ++ rest) ≡ true
unfolding execute_program guarded
program_guarded w e rest h =
    ground (arith, quiet-guarded false true rest h, quiet-guarded false false rest h)

start_program-guarded :
    (o : Options) (w : World) (e : Entry)
    → (guarded true false (start_program o w e).actions ≡ true)
      × (is_early (start_program o w e).entry.phase ≡ false)
unfolding start_program guarded
start_program-guarded o w e =
    let e1 : Entry = record e { phase = running } in
    let p = execute_program w e1 in
    let d = with_result-IsLate o w p.value p.entry in
    (program_guarded w e1 (with_result o w p.value p.entry).actions d.quiet, d.late)

give_up-IsLate : (event : State.Event) (e : Entry) → IsLate (give_up event e)
unfolding give_up
give_up-IsLate event e = record { quiet = refl; late = refl }

activate-Starts :
    (o : Options) (w : World) (e : Entry) (a : Activation)
    → is_early e.phase ≡ true
    → Starts e (activate_by o w e a)
unfolding activate_by guarded
activate-Starts o w e active h =
    let s = start_program-guarded o w (record e { phase = queued }) in inl (rw h s.0, s.1)
activate-Starts o w e cancelled h = late-Starts e _ (give_up-IsLate _ e)
activate-Starts o w e timeout h = late-Starts e _ (give_up-IsLate _ e)
activate-Starts o w e unfinished h = inr (refl, refl)

take_up-Starts :
    (saved : Option WatchResult) (given : Option ℕ) (o : Options) (w : World) (e : Entry)
    → is_early e.phase ≡ false
    → Starts e (take_up saved given o w e)
unfolding take_up
take_up-Starts none none o w e h = inr (refl, refl)
take_up-Starts none (some code) o w e h = inr (refl, refl)
take_up-Starts (some r) none o w e h = inr (refl, refl)
take_up-Starts (some r) (some code) o w e h =
    late-Starts e _ (proceed-IsLate e.phase o w r code e h)

steps-Starts :
    (p : Phase) (o : Options) (w : World) (log : Option WatchResult) (e : Entry)
    → e.phase ≡ p
    → Starts e (steps p o w log e)
unfolding steps activate
steps-Starts activating o w log e h =
    activate-Starts o w e (activate_goal_wait w.rounds) (ap is_early h)
steps-Starts queued o w log e h =
    let s = start_program-guarded o w e in
    inl (ap (λ b. guarded b false (start_program o w e).actions) (ap is_early h) ∙ s.0, s.1)
steps-Starts running o w log e h = late-Starts e _ (with_result-IsLate o w (recovered log) e)
steps-Starts querying o w log e h = late-Starts e _ (with_result-IsLate o w (recovered log) e)
steps-Starts notifying o w log e h = take_up-Starts e.result e.code o w e (ap is_early h)
steps-Starts awaiting_ack o w log e h = take_up-Starts e.result e.code o w e (ap is_early h)
steps-Starts finalizing o w log e h = take_up-Starts e.result e.code o w e (ap is_early h)

-- Saves behind the steps in the phase that they end in.
Starts-append :
    (e : Entry) (d : Done Ending) (rest : List Action)
    → Starts e d
    → Keeps (is_early d.entry.phase) rest
    → guarded (is_early e.phase) false (d.actions ++ rest) ≡ true
Starts-append e d rest (inl (safe, late)) kept =
    guarded-append (is_early e.phase) false d.actions rest safe (Keeps-quiet rest (rw late at kept))
Starts-append e d rest (inr (idle, same)) kept =
    rw idle (Keeps-guarded (is_early e.phase) false rest (rw same at kept))

last_save-Keeps :
    (was_cancelled : Bool) (ending : Ending) (e : Entry)
    → Keeps (is_early e.phase) (last_save was_cancelled ending e)
unfolding last_save
last_save-Keeps false (returned r code) e = (refl, tt)
last_save-Keeps false raised e = tt
last_save-Keeps false goes_on e = tt
last_save-Keeps true (returned r code) e = tt
last_save-Keeps true raised e = tt
last_save-Keeps true goes_on e = tt

with_lock-guarded :
    (has_lock gets_lock : Bool) (o : Options) (w : World) (d : Disk) (rest : List Action)
    → Keeps (is_early (with_lock has_lock gets_lock o w d).entry.phase) rest
    → guarded (is_early d.entry.phase) false ((with_lock has_lock gets_lock o w d).actions ++ rest)
      ≡ true
unfolding with_lock guarded
with_lock-guarded false gets_lock o w d rest kept =
    Starts-append d.entry (steps d.entry.phase o w d.log d.entry) rest
      (steps-Starts d.entry.phase o w d.log d.entry refl) kept
with_lock-guarded true false o w d rest kept =
    Keeps-guarded (is_early d.entry.phase) false rest kept
with_lock-guarded true true o w d rest kept =
    let e1 : Entry = record d.entry { lock_status = held } in
    let s = steps-Starts e1.phase o w d.log e1 refl in
    let inside = steps e1.phase o w d.log e1 in
    let out : Entry = record inside.entry { lock_status = released } in
    let h = Starts-append e1 inside (save_record out ∷ rest) s (refl, kept) in
    ground (arith, append_assoc inside.actions (save_record out ∷ []) rest)

-- A run of a watch keeps to the monitor.
pub run_watch-guarded :
    (o : Options) (w : World) (was_cancelled : Bool) (d : Disk)
    → guarded (is_early d.entry.phase) false (run_watch o w was_cancelled d) ≡ true
unfolding run_watch watch
run_watch-guarded o w was_cancelled d =
    let run = with_lock o.has_lock_file w.gets_lock o w d in
    with_lock-guarded o.has_lock_file w.gets_lock o w d _
      (last_save-Keeps was_cancelled run.value run.entry)
