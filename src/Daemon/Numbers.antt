-- ===== src/Daemon/Numbers.antt =====
-- A monitor of the actions of a watch that counts its attempts to notify on disk before it makes
-- them, and what it allows.
use wait_skill.Prelude.{
  ℕ, ◌+◌, ◌≤◌, ◌<◌, Bool, true, false, not, ◌&&◌, ◌||◌, ◌≡◌, refl, List, [], ◌∷◌, ◌++◌, Option,
  none, some, arith, leb, ltb, nat_eq, is_empty, if◌then◌else◌, sym, subst, Bool-cases, inl, inr,
}
use wait_skill.Daemon.State.{
  Action, save_log, save_record, execute, notify, Entry, Disk, WatchResult, Phase, activating,
  queued, running, querying, settle, apply,
}
use wait_skill.Daemon.Once.{count}

-- The numbers of the attempts whose commands are started, in order.
abbrev pub sent : List Action → List ℕ
sent [] = []
sent (notify k ∷ acts) = k ∷ sent acts
sent (_ ∷ acts) = sent acts

-- Numbers that grow, above `low` and not above `high`.
abbrev pub Rises : (low : ℕ) → List ℕ → (high : ℕ) → Type 0
Rises low [] high = low ≤ high
Rises low (k ∷ ks) high = (low < k) × Rises k ks high

pub Rises-append :
    (low : ℕ) (xs ys : List ℕ) (mid high : ℕ)
    → Rises low xs mid
    → Rises mid ys high
    → Rises low (xs ++ ys) high
Rises-append low [] [] mid high h k = omega arith
Rises-append low [] (y ∷ ys) mid high h k = (omega arith, k.1)
Rises-append low (x ∷ xs) ys mid high h k = (h.0, Rises-append x xs ys mid high h.1 k)

-- The attempts that the saved result counts.
abbrev pub attempts_of : Entry → ℕ
attempts_of e = elim e.result [ none ↦ 0 | some r ↦ r.notification_attempts ]

-- The phases in which no result has been saved.
abbrev pub is_before : Phase → Bool
is_before activating = true
is_before queued = true
is_before running = true
is_before querying = true
is_before _ = false

abbrev pub counts_none : Option WatchResult → Bool
counts_none none = true
counts_none (some r) = nat_eq r.notification_attempts 0

-- Before a result has been saved, neither the record nor the log counts attempts.
abbrev pub fits : Disk → Bool
fits d = not (is_before d.entry.phase) || (nat_eq (attempts_of d.entry) 0 && counts_none d.log)

-- The actions do not end the watch.
abbrev pub keeps_active : List Action → Bool
keeps_active [] = true
keeps_active (save_record e ∷ acts) = e.active && keeps_active acts
keeps_active (_ ∷ acts) = keeps_active acts

first_empty : (xs ys : List Action) → is_empty (xs ++ ys) ≡ true → xs ≡ []
first_empty [] ys h = refl
first_empty (x ∷ xs) ys h = cc

module _ (most : ℕ) where
  -- `reserved`: the record has come to count another attempt in this run, and it was not made.
  unfoldable pub numbered : Disk → (reserved : Bool) → List Action → Bool
  numbered d reserved [] = true
  numbered d reserved (save_log r ∷ acts) =
      fits (apply (save_log r) d) && numbered (apply (save_log r) d) reserved acts
  numbered d reserved (save_record e ∷ acts) =
      let next =
        (leb (attempts_of d.entry) (attempts_of e) && leb (attempts_of e) most)
        && (fits (apply (save_record e) d)
            && numbered (apply (save_record e) d)
                (reserved || ltb (attempts_of d.entry) (attempts_of e)) acts) in
      if e.active then next else is_empty acts
  numbered d reserved (execute ∷ acts) = numbered d reserved acts
  numbered d reserved (notify k ∷ acts) =
      (nat_eq k (attempts_of d.entry) && reserved) && numbered d false acts

  pub numbered-append :
      (d : Disk) (reserved : Bool) (xs ys : List Action)
      → keeps_active xs ≡ true
      → numbered d reserved xs ≡ true
      → ((later : Bool) → numbered (settle xs d) later ys ≡ true)
      → numbered d reserved (xs ++ ys) ≡ true
  unfolding numbered
  numbered-append d reserved [] ys live h k = k reserved
  numbered-append d reserved (save_log r ∷ xs) ys live h k =
      ground (arith, numbered-append (apply (save_log r) d) reserved xs ys live _ k)
  numbered-append d reserved (save_record e ∷ xs) ys live h k = ground (
    arith,
    numbered-append (apply (save_record e) d)
        (reserved || ltb (attempts_of d.entry) (attempts_of e)) xs ys _ _ k,
  )
  numbered-append d reserved (execute ∷ xs) ys live h k = numbered-append d reserved xs ys live h k
  numbered-append d reserved (notify n ∷ xs) ys live h k =
      ground (arith, numbered-append d false xs ys live _ k)

  -- Numbers that were sent, and what the files count after them.
  pub record Counted (low : ℕ) (numbers : List ℕ) (d : Disk) : Type 0 where
    pub high : ℕ
    pub rises : Rises low numbers high
    pub within : high ≤ most
    pub live : d.entry.active ≡ true → (attempts_of d.entry ≡ high) × (fits d ≡ true)

  -- Wherever the actions stop, the numbers that were sent grow, and an active record counts them.
  pub numbered-Counted :
      (d : Disk) (reserved : Bool) (before rest : List Action) (low : ℕ)
      → numbered d reserved (before ++ rest) ≡ true
      → low + count reserved ≤ attempts_of d.entry
      → attempts_of d.entry ≤ most
      → fits d ≡ true
      → Counted low (sent before) (settle before d)
  unfolding numbered
  numbered-Counted d reserved [] rest low h room within fit = record {
    high = attempts_of d.entry;
    rises = omega (arith, room);
    within = within;
    live = λ a. (refl, fit);
  }
  numbered-Counted d reserved (save_log r ∷ acts) rest low h room within fit =
      numbered-Counted (apply (save_log r) d) reserved acts rest low (ground arith) room within
        (ground arith)
  numbered-Counted d reserved (save_record e ∷ acts) rest low h room within fit =
      elim (Bool-cases e.active) [
        | inl on ↦
            numbered-Counted (apply (save_record e) d)
              (reserved || ltb (attempts_of d.entry) (attempts_of e)) acts rest low (ground arith)
              (ground arith) (ground arith) (ground arith)
        | inr off ↦
            subst (λ xs. Counted low (sent xs) (settle xs (apply (save_record e) d)))
              (sym (first_empty acts rest (ground arith)))
              (record {
                high = attempts_of d.entry;
                rises = omega (arith, room);
                within = within;
                live = λ a. cc (off, a);
              })
      ]
  numbered-Counted d reserved (execute ∷ acts) rest low h room within fit =
      numbered-Counted d reserved acts rest low h room within fit
  numbered-Counted d reserved (notify k ∷ acts) rest low h room within fit =
      let c = numbered-Counted d false acts rest k (ground arith) (ground arith) within fit in
      record { high = c.high; rises = (ground arith, c.rises); within = c.within; live = c.live }
