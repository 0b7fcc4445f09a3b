-- ===== src/Registry/Cancelled.antt =====
-- src/waitd.py, `cancel` and what `restore` takes up behind it.
use wait_skill.Prelude.{
  ℕ, Bool, true, false, ◌≡◌, ◌≢◌, ◌∙◌, refl, sym, ap, Option, none, some, List, [], ◌∷◌, String,
  ◌==◌, elem, ok, arith, inl, inr, Bool-cases, subst, eq_iff,
}
use wait_skill.Registry.State.{
  Watcher, is_active, ids, is_kept, surplus, save, cancelled_at, find, cancel, cancel_found,
  restored,
}
use wait_skill.Registry.Sorting.{IsIn, select-IsIn}
use wait_skill.Registry.Pruning.{are_distinct, elem-ids, one_of_id}

find-IsIn :
    (id : String) (xs : List Watcher) (w : Watcher)
    → find id xs ≡ some w
    → IsIn w xs × (w.watch_id ≡ id)
find-IsIn id [] w h = absurd (cc h)
find-IsIn id (x ∷ xs) w h = elim (Bool-cases (x.watch_id == id)) [
  | inl here ↦
      let found : some x ≡ some w = rw here at h in
      let same : x ≡ w = cc found in
      (inl same, ap (λ y. y.watch_id) (sym same) ∙ (eq_iff x.watch_id id).0 here)
  | inr later ↦ let more = find-IsIn id xs w (rw later at h) in (inr more.0, more.1)
]

-- The watch of that identifier is cancelled.
cancelled_at-over :
    (now : ℕ) (id : String) (xs : List Watcher) (x : Watcher)
    → are_distinct xs ≡ true
    → IsIn x (cancelled_at now id xs)
    → x.watch_id ≡ id
    → is_active x.state ≡ false
unfolding are_distinct
cancelled_at-over now id [] x h there same = absurd there
cancelled_at-over now id (w ∷ xs) x h there same = elim (Bool-cases (w.watch_id == id)) [
  | inl here ↦ elim (rw here at there) [
    | inl first ↦ ap (λ y. is_active y.state) (sym first)
    | inr more ↦
        let known = ap (λ k. elem k (ids xs)) (same ∙ sym ((eq_iff w.watch_id id).0 here)) in
        let twice = sym known ∙ elem-ids x xs more in absurd (ground (arith, h, twice))
  ]
  | inr later ↦ elim (rw later at there) [
    | inl first ↦
        let mine : (w.watch_id == id) ≡ true =
          (eq_iff w.watch_id id).1 (ap (λ y. y.watch_id) first ∙ same) in
        absurd (cc (sym later ∙ mine))
    | inr more ↦ cancelled_at-over now id xs x (ground (arith, h)) more same
  ]
]

cancel_found-over :
    (protected : List String) (now : ℕ) (id : String) (watchers : List Watcher) (o : Option Watcher)
    (done : List Watcher × Bool) (x : Watcher)
    → find id watchers ≡ o
    → are_distinct watchers ≡ true
    → cancel_found protected now id watchers o ≡ ok done
    → IsIn x done.0
    → x.watch_id ≡ id
    → is_active x.state ≡ false
unfolding save
cancel_found-over protected now id watchers none done x at h k there same = absurd (cc k)
cancel_found-over protected now id watchers (some w) done x at h k there same =
    elim (Bool-cases (is_active w.state)) [
      | inl live ↦
          let result : ok (save protected (cancelled_at now id watchers), false) ≡ ok done =
            rw live at k in
          let equal : (save protected (cancelled_at now id watchers), false) ≡ done = cc result in
          let kept = subst (λ d. IsIn x d.0) (sym equal) there in
          let from =
            select-IsIn (is_kept (surplus protected (cancelled_at now id watchers))) x
              (cancelled_at now id watchers) kept in
          cancelled_at-over now id watchers x h from.0 same
      | inr over ↦
          let result : ok (watchers, true) ≡ ok done = rw over at k in
          let equal : (watchers, true) ≡ done = cc result in
          let kept : IsIn x watchers = subst (λ d. IsIn x d.0) (sym equal) there in
          let known = find-IsIn id watchers w at in
          let one = one_of_id watchers w x h known.0 kept (known.1 ∙ sym same) in
          ap (λ y. is_active y.state) (sym one) ∙ over
    ]

-- When a request to cancel a watch succeeds, also as a duplicate, the service does not take the watch up
-- when it starts again from that registry; its identifiers are distinct.
pub cancel-restored :
    (protected : List String) (now : ℕ) (id : String) (watchers behind : List Watcher)
    (duplicate : Bool) (x : Watcher)
    → are_distinct watchers ≡ true
    → cancel protected now id watchers ≡ ok (behind, duplicate)
    → IsIn x (restored behind)
    → x.watch_id ≢ id
unfolding cancel
cancel-restored protected now id watchers behind duplicate x h done there same =
    let live = select-IsIn (λ w. is_active w.state) x behind there in
    let over =
      cancel_found-over protected now id watchers (find id watchers) (behind, duplicate) x refl h
        done live.0 same in
    cc (sym live.1 ∙ over)
