-- ===== src/Daemon/Parts.antt =====
-- Parts of a run of a watch in src/waitd.py that keep to the monitor of attempts, and their
-- composition.
use wait_skill.Prelude.{
  ℕ, ◌≤◌, Bool, true, false, ◌≡◌, refl, List, [], ◌∷◌, ◌++◌, arith, Option, sym, ap, ◌∙◌, subst,
}
use mathlib.Core.List.{append-nil}
use wait_skill.Daemon.State.{
  Action, save_log, save_record, execute, notify, Entry, Disk, WatchResult, settle, apply,
}
use wait_skill.Daemon.Delivery.{Done, behind}
use wait_skill.Daemon.Numbers.{
  attempts_of, fits, numbered, numbered-append, numbered-Counted, keeps_active,
}

abbrev pub on_disk : Entry → Option WatchResult → Disk
on_disk e l = record { entry = e; log = l }

pub settle-append : (xs ys : List Action) (d : Disk) → settle (xs ++ ys) d ≡ settle ys (settle xs d)
settle-append [] ys d = refl
settle-append (x ∷ xs) ys d = settle-append xs ys (apply x d)

-- A part that keeps to the monitor from record `e` on, and ends with the record that it gives.
pub record Numbered {ℓ} {A : Type ℓ} (most : ℕ) (e : Entry) (d : Done A) : Type ℓ where
  pub safe :
      (l : Option WatchResult)
      → fits (on_disk e l) ≡ true
      → (reserved : Bool) → numbered most (on_disk e l) reserved d.actions ≡ true
  pub tracks : (l : Option WatchResult) → (settle d.actions (on_disk e l)).entry ≡ d.entry
  pub within : attempts_of d.entry ≤ most
  pub lives : keeps_active d.actions ≡ true
  pub active : d.entry.active ≡ true

fits_behind {ℓ} :
    {A : Type ℓ} (most : ℕ) (e : Entry) (c : Done A)
    → attempts_of e ≤ most
    → Numbered most e c
    → (l : Option WatchResult) → fits (on_disk e l) ≡ true
    → fits (on_disk c.entry (settle c.actions (on_disk e l)).log) ≡ true
fits_behind most e c room h l fit =
    let safe =
      subst (λ xs. numbered most (on_disk e l) false xs ≡ true) (sym (append-nil c.actions))
        (h.safe l fit false) in
    let counted =
      numbered-Counted most (on_disk e l) false c.actions [] 0 safe (omega arith) room fit in
    let live = ap (λ x. x.active) (h.tracks l) ∙ h.active in
    subst (λ x. fits (on_disk x (settle c.actions (on_disk e l)).log) ≡ true) (h.tracks l)
      (counted.live live).1

keeps_active-append :
    (xs ys : List Action)
    → keeps_active xs ≡ true
    → keeps_active ys ≡ true
    → keeps_active (xs ++ ys) ≡ true
keeps_active-append [] ys h k = k
keeps_active-append (save_log r ∷ xs) ys h k = keeps_active-append xs ys h k
keeps_active-append (save_record e ∷ xs) ys h k = ground (arith, keeps_active-append xs ys)
keeps_active-append (execute ∷ xs) ys h k = keeps_active-append xs ys h k
keeps_active-append (notify n ∷ xs) ys h k = keeps_active-append xs ys h k

pub behind-Numbered {ℓ κ} :
    {A : Type ℓ} {B : Type κ} (most : ℕ) (e : Entry) (c : Done A) (d : Done B)
    → attempts_of e ≤ most
    → Numbered most e c
    → Numbered most c.entry d
    → Numbered most e (behind c.actions d)
behind-Numbered most e c d room h k = record {
  safe = λ l fit reserved.
      let log = (settle c.actions (on_disk e l)).log in
      numbered-append most (on_disk e l) reserved c.actions d.actions h.lives
        (h.safe l fit reserved)
        (λ later.
          subst (λ x. numbered most (on_disk x log) later d.actions ≡ true) (sym (h.tracks l))
            (k.safe log (fits_behind most e c room h l fit) later));
  tracks = λ l.
      let log = (settle c.actions (on_disk e l)).log in
      ap (λ x. x.entry) (settle-append c.actions d.actions (on_disk e l))
      ∙ subst (λ x. (settle d.actions (on_disk x log)).entry ≡ d.entry) (sym (h.tracks l))
          (k.tracks log);
  within = k.within;
  lives = keeps_active-append c.actions d.actions h.lives k.lives;
  active = k.active;
}

-- Actions that are given as a list, with the record that they end with.
abbrev pub part : List Action → Entry → Done (Unit {0})
part acts e = record { actions = acts; entry = e; value = tt }
