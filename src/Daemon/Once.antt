-- ===== src/Daemon/Once.antt =====
-- A monitor of the actions of a watch that lets the program start once, and what it allows.
use wait_skill.Prelude.{
  ℕ, suc, ◌+◌, ◌≤◌, Bool, true, false, not, ◌&&◌, ◌||◌, ◌≡◌, refl, List, [], ◌∷◌, ◌++◌, all, arith,
}
use wait_skill.Daemon.State.{Action, save_log, save_record, execute, notify, Disk, settle, apply}
use wait_skill.Daemon.Program.{is_early}

-- How often the program is started.
abbrev pub executions : List Action → ℕ
executions [] = 0
executions (execute ∷ acts) = suc (executions acts)
executions (_ ∷ acts) = executions acts

abbrev pub count : Bool → ℕ
count true = 1
count false = 0

-- `early`: the record on disk is in a phase before the program; `allowed`: it has left such a
-- phase in this run, and the program has not been started since.
unfoldable pub guarded : (early allowed : Bool) → List Action → Bool
guarded early allowed [] = true
guarded early allowed (save_log r ∷ acts) = guarded early allowed acts
guarded early allowed (save_record e ∷ acts) =
    (early || not (is_early e.phase))
    && guarded (is_early e.phase) (allowed || (early && not (is_early e.phase))) acts
guarded early allowed (execute ∷ acts) = allowed && guarded early false acts
guarded early allowed (notify k ∷ acts) = guarded early allowed acts

-- Neither a start of the program nor a step back to an early phase.
abbrev pub is_quiet : Action → Bool
is_quiet execute = false
is_quiet (save_record e) = not (is_early e.phase)
is_quiet _ = true

pub quiet-append :
    (xs ys : List Action)
    → all is_quiet xs ≡ true
    → all is_quiet ys ≡ true
    → all is_quiet (xs ++ ys) ≡ true
quiet-append [] ys h k = k
quiet-append (x ∷ xs) ys h k = ground (arith, quiet-append xs ys)

pub quiet-guarded :
    (early allowed : Bool) (acts : List Action)
    → all is_quiet acts ≡ true
    → guarded early allowed acts ≡ true
unfolding guarded
quiet-guarded early allowed [] h = refl
quiet-guarded early allowed (save_log r ∷ acts) h = quiet-guarded early allowed acts h
quiet-guarded early allowed (save_record e ∷ acts) h =
    ground
      (arith, quiet-guarded (is_early e.phase) (allowed || (early && not (is_early e.phase))) acts)
quiet-guarded early allowed (execute ∷ acts) h = cc
quiet-guarded early allowed (notify k ∷ acts) h = quiet-guarded early allowed acts h

pub guarded-append :
    (early allowed : Bool) (acts rest : List Action)
    → guarded early allowed acts ≡ true
    → all is_quiet rest ≡ true
    → guarded early allowed (acts ++ rest) ≡ true
unfolding guarded
guarded-append early allowed [] rest h quiet = quiet-guarded early allowed rest quiet
guarded-append early allowed (save_log r ∷ acts) rest h quiet =
    guarded-append early allowed acts rest h quiet
guarded-append early allowed (save_record f ∷ acts) rest h quiet = ground (
  arith,
  guarded-append (is_early f.phase) (allowed || (early && not (is_early f.phase))) acts rest,
)
guarded-append early allowed (execute ∷ acts) rest h quiet =
    ground (arith, guarded-append early false acts rest)
guarded-append early allowed (notify k ∷ acts) rest h quiet =
    guarded-append early allowed acts rest h quiet

-- Saves of records that are all in an early phase, or all in a late one.
abbrev pub Keeps : Bool → List Action → Type 0
Keeps early [] = Unit
Keeps early (save_record e ∷ acts) = (is_early e.phase ≡ early) × Keeps early acts
Keeps early (_ ∷ acts) = ⊥

pub Keeps-guarded :
    (early allowed : Bool) (acts : List Action)
    → Keeps early acts
    → guarded early allowed acts ≡ true
unfolding guarded
Keeps-guarded early allowed [] h = refl
Keeps-guarded early allowed (save_log r ∷ acts) h = elim h [ ]
Keeps-guarded early allowed (save_record e ∷ acts) h =
    ground (arith, Keeps-guarded early (allowed || (early && not (is_early e.phase))) acts h.1)
Keeps-guarded early allowed (execute ∷ acts) h = elim h [ ]
Keeps-guarded early allowed (notify k ∷ acts) h = elim h [ ]

pub Keeps-quiet : (acts : List Action) → Keeps false acts → all is_quiet acts ≡ true
Keeps-quiet [] h = refl
Keeps-quiet (save_log r ∷ acts) h = elim h [ ]
Keeps-quiet (save_record e ∷ acts) h = ground (arith, Keeps-quiet acts h.1)
Keeps-quiet (execute ∷ acts) h = elim h [ ]
Keeps-quiet (notify k ∷ acts) h = elim h [ ]

-- Wherever the actions stop, the program has been started as often as was allowed at most, and
-- what is still allowed by the phase on disk counts too.
pub guarded-executions :
    (early allowed : Bool) (before rest : List Action) (d : Disk)
    → is_early d.entry.phase ≡ early
    → guarded early allowed (before ++ rest) ≡ true
    → executions before + count (is_early (settle before d).entry.phase)
      ≤ count early + count allowed
unfolding guarded
guarded-executions early allowed [] rest d e h = ground arith
guarded-executions early allowed (save_log r ∷ acts) rest d e h =
    guarded-executions early allowed acts rest (record d { log = _ }) e h
guarded-executions early allowed (save_record f ∷ acts) rest d e h = ground (
  arith,
  guarded-executions (is_early f.phase) (allowed || (early && not (is_early f.phase))) acts rest
      (apply (save_record f) d) refl,
)
guarded-executions early allowed (execute ∷ acts) rest d e h =
    ground (arith, guarded-executions early false acts rest d e)
guarded-executions early allowed (notify k ∷ acts) rest d e h =
    guarded-executions early allowed acts rest d e h
