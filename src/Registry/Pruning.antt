-- ===== src/Registry/Pruning.antt =====
-- src/waitd.py, `save`: what the registry keeps.
use wait_skill.Prelude.{
  ℕ, zero, suc, ◌≤◌, Bool, true, false, not, ◌&&◌, ◌≡◌, ◌∙◌, refl, sym, ap, List, [], ◌∷◌, ◌++◌,
  String, ◌==◌, elem, length, length-append, select, take, drop, take-drop, arith, ◌⊎◌, inl, inr,
  Bool-cases, subst, eq_iff, eq_refl,
}
use wait_skill.Registry.State.{
  Watcher, ids, is_finished, max_finished_watches, place, latest_first, surplus, is_kept, save,
}
use wait_skill.Registry.Sorting.{
  IsIn, IsFalling, IsIn-select, select-IsIn, IsIn-latest_first, latest_first-IsIn,
  latest_first-IsFalling, falls_across,
}

abbrev finished : (protected : List String) → List Watcher → List Watcher
finished protected watchers = latest_first (select (is_finished protected) watchers)

pub elem-ids : (w : Watcher) (xs : List Watcher) → IsIn w xs → elem w.watch_id (ids xs) ≡ true
unfolding elem
elem-ids w [] h = absurd h
elem-ids w (x ∷ xs) (inl same) =
    let first : (x.watch_id == w.watch_id) ≡ true =
      ap (λ y. y.watch_id == w.watch_id) same ∙ eq_refl w.watch_id in
    ground (arith, first)
elem-ids w (x ∷ xs) (inr more) = ground (arith, elem-ids w xs more)

pub ids-elem :
    (k : String) (xs : List Watcher)
    → elem k (ids xs) ≡ true
    → (w : Watcher) × IsIn w xs × (w.watch_id ≡ k)
unfolding elem
ids-elem k [] h = absurd (cc h)
ids-elem k (x ∷ xs) h = elim (Bool-cases (x.watch_id == k)) [
  | inl here ↦ (x, inl refl, (eq_iff x.watch_id k).0 here)
  | inr later ↦ let more = ids-elem k xs (rw later at h) in (more.0, inr more.1, more.2)
]

split-IsIn :
    (n : ℕ) (w : Watcher) (xs : List Watcher) → IsIn w xs → IsIn w (take n xs) ⊎ IsIn w (drop n xs)
split-IsIn zero w xs h = inr h
split-IsIn (suc n) w [] h = absurd h
split-IsIn (suc n) w (x ∷ xs) (inl same) = inl (inl same)
split-IsIn (suc n) w (x ∷ xs) (inr more) = elim (split-IsIn n w xs more) [
  | inl first ↦ inl (inr first)
  | inr last ↦ inr last
]

drop-IsIn : (n : ℕ) (w : Watcher) (xs : List Watcher) → IsIn w (drop n xs) → IsIn w xs
drop-IsIn zero w xs h = h
drop-IsIn (suc n) w [] h = absurd h
drop-IsIn (suc n) w (x ∷ xs) h = inr (drop-IsIn n w xs h)

-- What a save removes are finished watches that no loop waits for.
pub surplus-is_finished :
    (protected : List String) (watchers : List Watcher) (w : Watcher)
    → IsIn w (surplus protected watchers)
    → IsIn w watchers × (is_finished protected w ≡ true)
unfolding surplus
surplus-is_finished protected watchers w h = select-IsIn (is_finished protected) w watchers (
    latest_first-IsIn w (select (is_finished protected) watchers)
      (drop-IsIn max_finished_watches w (finished protected watchers) h))

later_stays :
    (protected : List String) (watchers : List Watcher) (v w : Watcher)
    → IsIn v watchers
    → is_finished protected v ≡ true
    → is_kept (surplus protected watchers) v ≡ true
    → IsIn w (surplus protected watchers)
    → w.updated_at ≤ v.updated_at
unfolding surplus
later_stays protected watchers v w known done stays gone =
    let all_finished = finished protected watchers in
    let first = take max_finished_watches all_finished in
    let last = drop max_finished_watches all_finished in
    let chosen = select (is_finished protected) watchers in
    let in_order =
      subst IsFalling (sym (take-drop max_finished_watches all_finished))
        (latest_first-IsFalling chosen) in
    let there =
      IsIn-latest_first v chosen (IsIn-select (is_finished protected) v watchers known done) in
    elim (split-IsIn max_finished_watches v all_finished there) [
      | inl early ↦ falls_across v w first last in_order early gone
      | inr removed ↦ absurd (cc (sym stays ∙ ap not (elem-ids v last removed)))
    ]

-- No two watches have the same identifier.
unfoldable pub are_distinct : List Watcher → Bool
unfolding elem
are_distinct [] = true
are_distinct (x ∷ xs) = not (elem x.watch_id (ids xs)) && are_distinct xs

pub one_of_id :
    (xs : List Watcher) (x y : Watcher)
    → are_distinct xs ≡ true
    → IsIn x xs
    → IsIn y xs
    → x.watch_id ≡ y.watch_id
    → x ≡ y
unfolding are_distinct
one_of_id [] x y h at_x at_y same = absurd at_x
one_of_id (z ∷ xs) x y h (inl at_x) (inl at_y) same = sym at_x ∙ at_y
one_of_id (z ∷ xs) x y h (inr at_x) (inr at_y) same =
    one_of_id xs x y (ground (arith, h)) at_x at_y same
one_of_id (z ∷ xs) x y h (inl at_x) (inr at_y) same =
    let id = ap (λ w. w.watch_id) at_x ∙ same in
    let there = ap (λ k. elem k (ids xs)) id ∙ elem-ids y xs at_y in
    absurd (ground (arith, h, there))
one_of_id (z ∷ xs) x y h (inr at_x) (inl at_y) same =
    let id = ap (λ w. w.watch_id) at_y ∙ sym same in
    let there = ap (λ k. elem k (ids xs)) id ∙ elem-ids x xs at_x in
    absurd (ground (arith, h, there))

-- A save removes a watch only when it is finished and no loop waits for it, and each finished watch
-- that it keeps and no loop waits for has changed at that time or later; when no two watches of the
-- registry have the same identifier.
pub save-latest :
    (protected : List String) (watchers : List Watcher) (v w : Watcher)
    → are_distinct watchers ≡ true
    → IsIn w watchers
    → elem w.watch_id (ids (save protected watchers)) ≡ false
    → IsIn v (save protected watchers)
    → is_finished protected v ≡ true
    → (is_finished protected w ≡ true) × (w.updated_at ≤ v.updated_at)
unfolding save
save-latest protected watchers v w distinct known gone kept done =
    let removed = surplus protected watchers in
    elim (Bool-cases (elem w.watch_id (ids removed))) [
      | inr stays ↦
          let still = IsIn-select (is_kept removed) w watchers known (ap not stays) in
          absurd (cc (sym gone ∙ elem-ids w (save protected watchers) still))
      | inl goes ↦
          let other = ids-elem w.watch_id removed goes in
          let from = surplus-is_finished protected watchers other.0 other.1 in
          let same = one_of_id watchers other.0 w distinct from.0 known other.2 in
          let w_gone : IsIn w removed = subst (λ x. IsIn x removed) same other.1 in
          let stays = select-IsIn (is_kept removed) v watchers kept in
          (
            ap (is_finished protected) (sym same) ∙ from.1,
            later_stays protected watchers v w stays.0 done stays.1 w_gone,
          )
    ]

select-twice :
    (p q : Watcher → Bool) (xs : List Watcher) → select p (select q xs) ≡ select q (select p xs)
select-twice p q [] = refl
select-twice p q (x ∷ xs) = ground (arith, select-twice p q xs)

length-place :
    (q : Watcher → Bool) (x : Watcher) (xs : List Watcher)
    → length (select q (place x xs)) ≡ length (select q (x ∷ xs))
length-place q x [] = refl
length-place q x (y ∷ xs) = ground (arith, length-place q x xs)

length-latest_first :
    (q : Watcher → Bool) (xs : List Watcher)
    → length (select q (latest_first xs)) ≡ length (select q xs)
length-latest_first q [] = refl
length-latest_first q (x ∷ xs) =
    ground (arith, length-place q x (latest_first xs), length-latest_first q xs)

select-append :
    (q : Watcher → Bool) (xs ys : List Watcher) → select q (xs ++ ys) ≡ select q xs ++ select q ys
select-append q [] ys = refl
select-append q (x ∷ xs) ys = ground (arith, select-append q xs ys)

length-select : (q : Watcher → Bool) (xs : List Watcher) → length (select q xs) ≤ length xs
length-select q [] = omega arith
length-select q (x ∷ xs) = ground (arith, length-select q xs)

length-take : (n : ℕ) (xs : List Watcher) → length (take n xs) ≤ n
length-take zero xs = omega arith
length-take (suc n) [] = omega arith
length-take (suc n) (x ∷ xs) = omega (arith, length-take n xs)

none_kept :
    (removed xs : List Watcher)
    → ((w : Watcher) → IsIn w xs → IsIn w removed)
    → select (is_kept removed) xs ≡ []
none_kept removed [] h = refl
none_kept removed (x ∷ xs) h =
    rw (elem-ids x removed (h x (inl refl))) (none_kept removed xs (λ w k. h w (inr k)))

-- Behind a save at most 256 watches are finished and not waited for by a loop.
pub save-bounded :
    (protected : List String) (watchers : List Watcher)
    → length (select (is_finished protected) (save protected watchers)) ≤ max_finished_watches
unfolding save surplus
save-bounded protected watchers =
    let all_finished = finished protected watchers in
    let first = take max_finished_watches all_finished in
    let removed = drop max_finished_watches all_finished in
    let q = is_kept removed in
    let chosen = select (is_finished protected) watchers in
    let turned = ap length (select-twice (is_finished protected) q watchers) in
    let sorted = length-latest_first q chosen in
    let parts = ap length (
      ap (select q) (sym (take-drop max_finished_watches all_finished))
      ∙ select-append q first removed) in
    let sizes = length-append (select q first) (select q removed) in
    let gone = ap length (none_kept removed removed (λ w k. k)) in
    omega (
      arith,
      turned,
      sorted,
      parts,
      sizes,
      gone,
      length-select q first,
      length-take max_finished_watches all_finished,
    )
