-- ===== src/Reconcile/Steps.antt =====
-- src/waitd.py, `reconcile_loops`: one entry of the known loops.
use wait_skill.Prelude.{
  ◌≡◌, refl, ap, sym, ◌∙◌, Bool, true, false, not, ◌&&◌, ◌||◌, String, some, List, [], ◌∷◌, ◌==◌,
  ok, elem, arith, inl, inr, Bool-cases, Option-cases, Result-cases, eq_iff, eq_refl,
}
use wait_skill.Loop.State.{LoopState, goal_is_open, is_active, is_waiting}
use wait_skill.Loop.Lifecycle.{cancel}
use wait_skill.Registry.State.{Watcher, ids, submit}
use wait_skill.Registry.Protected.{submit-keeps}
use wait_skill.Jobs.Submit.{take_up, accepted_job, id_or}
use wait_skill.Jobs.Timers.{timer_argv, id_text}
use wait_skill.Reconcile.{
  Service, Reconciled, LoopStore, LoopFile, absent, broken, holds, reconcile_one, start_timer, link,
  follow_up, end_monitor, visit, protected_id, protected_ids, written, paths,
}

protected_id-more :
    (id : String) (file : LoopFile) (xs : List String)
    → elem id xs ≡ true
    → elem id (protected_id file xs) ≡ true
unfolding elem
protected_id-more id absent xs h = h
protected_id-more id broken xs h = h
protected_id-more id (holds s) xs h = ground arith

-- The files of a known loop have its identifier protected.
pub protected_ids-waits :
    (store : LoopStore) (loops : List (String × String)) (path id : String) (s : LoopState)
    → elem path (paths loops) ≡ true
    → store path ≡ holds s
    → s.watch_id ≡ some id
    → elem id (protected_ids store loops) ≡ true
unfolding elem
protected_ids-waits store [] path id s known held watched = ground (arith, known)
protected_ids-waits store ((at, cwd) ∷ loops) path id s known held watched =
    elim (Bool-cases (at == path)) [
      | inl here ↦
          let held_here : store at ≡ holds s = ap store ((eq_iff at path).0 here) ∙ held in
          ground (arith, held_here, watched, eq_refl id)
      | inr later ↦
          protected_id-more id (store at) (protected_ids store loops)
            (protected_ids-waits store loops path id s (ground (arith, known, later)) held watched)
    ]

pub take_up-ids :
    (v : Service) (cwd id : String) (protected argv : List String) (watchers behind : List Watcher)
    → elem id protected ≡ true
    → elem id (ids watchers) ≡ true
    → take_up v.outside (v.submission cwd) protected v.now argv watchers ≡ ok behind
    → elem id (ids behind) ≡ true
unfolding take_up
take_up-ids v cwd id protected argv watchers behind waits known done =
    elim (Result-cases (accepted_job v.outside (v.submission cwd) argv)) [
      | inr (e, refused) ↦ ground (arith, refused, done)
      | inl (taken, accepted) ↦
          let own = id_or (v.submission cwd).fresh_id taken.0.watch.event_id in
          elim (Result-cases (submit protected v.now own watchers)) [
            | inr (e, refused) ↦ ground (arith, refused, accepted, done)
            | inl (after, submitted) ↦
                let same : after ≡ behind = ground (arith, submitted, accepted, done) in
                ap (λ xs. elem id (ids xs)) (sym same)
                ∙ submit-keeps protected id own v.now watchers after waits submitted known
          ]
    ]

abbrev is_open_file : Service → LoopFile → Bool
is_open_file v absent = false
is_open_file v broken = false
is_open_file v (holds s) = goal_is_open v.goals s

module _ (v : Service) (loops : List (String × String)) (path id : String) (s : LoopState)
    (known : elem path (paths loops) ≡ true) (watched : s.watch_id ≡ some id)
    (open_goal : goal_is_open v.goals s ≡ true) where
  -- What holds of the loop while the others are visited: its file is as it was, and its timer stays
  -- in the registry.
  abbrev pub is_registered : Reconciled → Bool
  is_registered r = elem id (ids r.watchers)

  abbrev pub Stays : Reconciled → Reconciled → Type 0
  Stays r after =
      (after.store path ≡ holds s) × (is_registered r ≡ true → is_registered after ≡ true)

  start_timer-Stays :
      (entry cwd : String) (t : LoopState) (r : Reconciled)
      → r.store path ≡ holds s
      → Stays r (start_timer v loops entry cwd t r)
  start_timer-Stays entry cwd t r held =
      let taken =
        take_up v.outside (v.submission cwd) (protected_ids r.store loops) v.now
          (timer_argv v.clock t entry) r.watchers in
      elim (Result-cases taken) [
        | inr (e, refused) ↦ rw (refused, start_timer) (held, λ h. h)
        | inl (behind, done) ↦
            let waits = protected_ids-waits r.store loops path id s known held watched in
            rw (done, start_timer)
              (
                held,
                λ h.
                    take_up-ids v cwd id (protected_ids r.store loops) (timer_argv v.clock t entry)
                      r.watchers behind waits h done,
              )
      ]

  pub link-Stays :
      (entry : String) (t : LoopState) (r : Reconciled)
      → r.store path ≡ holds s
      → Stays r (link entry t r)
  link-Stays entry t r held = elim (Option-cases t.goal) [
    | inl e ↦ rw e (held, λ h. h)
    | inr (owner, e) ↦ rw e (held, λ h. h)
  ]

  then-Stays : (r next after : Reconciled) → Stays r next → Stays next after → Stays r after
  then-Stays r next after (a, f) (b, g) = (b, λ h. g (f h))

  follow_up-Stays :
      (entry cwd : String) (t : LoopState) (r : Reconciled)
      → r.store path ≡ holds s
      → Stays r (follow_up v loops entry cwd t r)
  follow_up-Stays entry cwd t r held =
      let seen = link-Stays entry t r held in
      let next = link entry t r in
      elim (Bool-cases (not (is_active t.status) || not (is_waiting t.phase))) [
        | inl done ↦ rw done seen
        | inr waits ↦ elim (Bool-cases (elem (id_text t) (ids next.watchers))) [
          | inl there ↦ rw (waits, there) seen
          | inr missing ↦
              rw (waits, missing)
                (then-Stays r next (start_timer v loops entry cwd t next) seen
                  (start_timer-Stays entry cwd t next seen.0))
        ]
      ]

  end_monitor-Stays :
      (entry cwd : String) (t : LoopState) (r : Reconciled)
      → (path == entry) ≡ false
      → r.store path ≡ holds s
      → Stays r (end_monitor v loops entry cwd t r)
  end_monitor-Stays entry cwd t r other held = elim (Bool-cases (v.runs_cancel entry)) [
    | inr fails ↦ rw fails (held, λ h. h)
    | inl runs ↦ elim (Result-cases (cancel v.now t)) [
      | inr (e, refused) ↦ rw (runs, refused) (held, λ h. h)
      | inl (t', cancelled) ↦
          let next : Reconciled = record r { store = written entry t' r.store } in
          let apart : next.store path ≡ holds s = rw other held in
          rw (runs, cancelled) (follow_up-Stays entry cwd t' next apart)
    ]
  ]

  pub reconcile_one-Stays :
      (entry : String × String) (r : Reconciled)
      → r.store path ≡ holds s
      → Stays r (reconcile_one v loops entry r)
  unfolding reconcile_one
  reconcile_one-Stays (at, cwd) r held =
      elim (r.store at) as (λ file. r.store at ≡ file → Stays r (visit v loops at cwd file r)) [
        | absent ↦ λ e. (held, λ h. h)
        | broken ↦ λ e. (held, λ h. h)
        | holds t ↦ λ e. elim (Bool-cases (is_active t.status && not (goal_is_open v.goals t))) [
          | inr goes_on ↦ rw goes_on (follow_up-Stays at cwd t r held)
          | inl ends ↦ elim (Bool-cases (path == at)) [
            | inr other ↦ rw ends (end_monitor-Stays at cwd t r other held)
            | inl same ↦
                let both : holds s ≡ holds t =
                  sym held ∙ (ap r.store ((eq_iff path at).0 same) ∙ e) in
                ground (arith, ap (is_open_file v) both, open_goal, ends)
          ]
        ]
      ]
        refl
