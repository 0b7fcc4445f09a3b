-- ===== src/Registry/Protected.antt =====
-- src/waitd.py, `save`, and the identifiers that loops wait for.
use wait_skill.Prelude.{
  ◌≡◌, refl, false, ap, sym, ◌∙◌, true, ◌||◌, String, List, [], ◌∷◌, ◌++◌, ◌==◌, ℕ, ok, elem, arith,
  inl, inr, Bool-cases, eq_refl,
}
use wait_skill.Registry.State.{Watcher, ids, save, surplus, is_kept, submit, active, put}
use wait_skill.Registry.Sorting.{IsIn-select}
use wait_skill.Registry.Pruning.{elem-ids, ids-elem, surplus-is_finished}

module _ (protected : List String) (id : String) (waits : elem id protected ≡ true) where
  surplus-protected : (watchers : List Watcher) → elem id (ids (surplus protected watchers)) ≡ false
  surplus-protected watchers = elim (Bool-cases (elem id (ids (surplus protected watchers)))) [
    | inl gone ↦
        let (w, there, same) = ids-elem id (surplus protected watchers) gone in
        let (known, done) = surplus-is_finished protected watchers w there in
        let own = ap (λ x. elem x protected) same ∙ waits in ground (arith, done, own)
    | inr stays ↦ stays
  ]

  -- An identifier that a loop waits for stays in the registry when it is saved.
  pub save-protected :
      (watchers : List Watcher)
      → elem id (ids watchers) ≡ true
      → elem id (ids (save protected watchers)) ≡ true
  unfolding save
  save-protected watchers known =
      let (w, there, same) = ids-elem id watchers known in
      let stays =
        ap (λ x. elem x (ids (surplus protected watchers))) same ∙ surplus-protected watchers in
      let kept =
        IsIn-select (is_kept (surplus protected watchers)) w watchers there
          (ground (arith, stays)) in
      ap (λ x. elem x (ids (save protected watchers))) (sym same)
      ∙ elem-ids w (save protected watchers) kept

pub ids-append :
    (id : String) (watchers : List Watcher) (w : Watcher)
    → elem id (ids (watchers ++ w ∷ [])) ≡ (elem id (ids watchers) || w.watch_id == id)
unfolding elem
ids-append id [] w = ground arith
ids-append id (x ∷ watchers) w = ground (arith, ids-append id watchers w)

put-new :
    (w : Watcher) (xs : List Watcher) → elem w.watch_id (ids xs) ≡ false → put w xs ≡ xs ++ w ∷ []
unfolding elem
put-new w [] h = refl
put-new w (x ∷ xs) h =
    let first : (x.watch_id == w.watch_id) ≡ false = ground (arith, h) in
    rw first (ap (x ∷◌) (put-new w xs (ground (arith, h))))

-- A submission that succeeds has a new identifier, and its record is the last one.
pub submit-is_new :
    (protected : List String) (now : ℕ) (id : String) (watchers behind : List Watcher)
    → submit protected now id watchers ≡ ok behind
    → (elem id (ids watchers) ≡ false)
      × (behind
          ≡ save protected
              (watchers ++ record { watch_id = id; state = active; updated_at = now } ∷ []))
unfolding submit
submit-is_new protected now id watchers behind done =
    let fresh : elem id (ids watchers) ≡ false = ground (arith, done) in
    let w : Watcher = record { watch_id = id; state = active; updated_at = now } in
    let saved : behind ≡ save protected (put w watchers) = ground (arith, done) in
    (fresh, saved ∙ ap (save protected) (put-new w watchers fresh))

module _ (protected : List String) (id other : String) (now : ℕ) (watchers behind : List Watcher)
    (waits : elem id protected ≡ true)
    (done : submit protected now other watchers ≡ ok behind) where
  abbrev grown : List Watcher
  grown = watchers ++ record { watch_id = other; state = active; updated_at = now } ∷ []

  behind-save : behind ≡ save protected grown
  behind-save = (submit-is_new protected now other watchers behind done).1

  pub submit-protected : elem id (ids grown) ≡ true → elem id (ids behind) ≡ true
  submit-protected known =
      ap (λ xs. elem id (ids xs)) behind-save ∙ save-protected protected id waits grown known

pub submit-keeps :
    (protected : List String) (id other : String) (now : ℕ) (watchers behind : List Watcher)
    → elem id protected ≡ true
    → submit protected now other watchers ≡ ok behind
    → elem id (ids watchers) ≡ true
    → elem id (ids behind) ≡ true
submit-keeps protected id other now watchers behind waits done known =
    submit-protected protected id other now watchers behind waits done
      (ids-append id watchers _ ∙ ground (arith, known))

pub submit-own :
    (protected : List String) (id : String) (now : ℕ) (watchers behind : List Watcher)
    → elem id protected ≡ true
    → submit protected now id watchers ≡ ok behind
    → elem id (ids behind) ≡ true
submit-own protected id now watchers behind waits done =
    submit-protected protected id id now watchers behind waits done
      (ids-append id watchers _ ∙ ground (arith, eq_refl id))

pub submit-new :
    (protected : List String) (id : String) (now : ℕ) (watchers : List Watcher)
    → elem id (ids watchers) ≡ false
    → (behind : List Watcher) × (submit protected now id watchers ≡ ok behind)
unfolding submit
submit-new protected id now watchers new = (
  save protected (put (record { watch_id = id; state = active; updated_at = now }) watchers),
  ground (arith, new),
)
