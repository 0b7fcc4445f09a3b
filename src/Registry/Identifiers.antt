-- ===== src/Registry/Identifiers.antt =====
-- src/waitd.py, `submit`: the watches that were in the registry before.
use wait_skill.Prelude.{
  ℕ, Bool, true, false, ◌≡◌, refl, ap, sym, ◌∙◌, List, [], ◌∷◌, ◌++◌, String, elem, select, ok,
  arith, inl, inr, Bool-cases, eq_iff, subst,
}
use wait_skill.Registry.State.{Watcher, active, ids, is_finished, is_kept, surplus, save, submit}
use wait_skill.Registry.Sorting.{IsIn, IsIn-select}
use wait_skill.Registry.Pruning.{are_distinct, ids-elem, one_of_id, surplus-is_finished}
use wait_skill.Registry.Protected.{ids-append, submit-is_new}

fewer_ids :
    (k : String) (p : Watcher → Bool) (xs : List Watcher)
    → elem k (ids xs) ≡ false
    → elem k (ids (select p xs)) ≡ false
unfolding elem
fewer_ids k p [] h = refl
fewer_ids k p (x ∷ xs) h = ground (arith, h, fewer_ids k p xs)

pub select-are_distinct :
    (p : Watcher → Bool) (xs : List Watcher)
    → are_distinct xs ≡ true
    → are_distinct (select p xs) ≡ true
unfolding are_distinct
select-are_distinct p [] h = refl
select-are_distinct p (x ∷ xs) h =
    ground (arith, h, fewer_ids x.watch_id p xs, select-are_distinct p xs)

append-are_distinct :
    (xs : List Watcher) (w : Watcher)
    → are_distinct xs ≡ true
    → elem w.watch_id (ids xs) ≡ false
    → are_distinct (xs ++ w ∷ []) ≡ true
unfolding are_distinct elem
append-are_distinct [] w h k = refl
append-are_distinct (x ∷ xs) w h k = ground (
  arith,
  h,
  k,
  ids-append x.watch_id xs w,
  append-are_distinct xs w,
  eq_iff x.watch_id w.watch_id,
  eq_iff w.watch_id x.watch_id,
)

IsIn-append : (x w : Watcher) (xs : List Watcher) → IsIn x xs → IsIn x (xs ++ w ∷ [])
IsIn-append x w [] h = absurd h
IsIn-append x w (y ∷ xs) (inl same) = inl same
IsIn-append x w (y ∷ xs) (inr more) = inr (IsIn-append x w xs more)

last-IsIn : (w : Watcher) (xs : List Watcher) → IsIn w (xs ++ w ∷ [])
last-IsIn w [] = inl refl
last-IsIn w (x ∷ xs) = inr (last-IsIn w xs)

save-IsIn :
    (protected : List String) (watchers : List Watcher) (x : Watcher)
    → are_distinct watchers ≡ true
    → IsIn x watchers
    → is_finished protected x ≡ false
    → IsIn x (save protected watchers)
unfolding save
save-IsIn protected watchers x h there open_still =
    let removed = surplus protected watchers in
    let kept : is_kept removed x ≡ true = elim (Bool-cases (elem x.watch_id (ids removed))) [
      | inr stays ↦ ground (arith, stays)
      | inl gone ↦
          let (w, out, same) = ids-elem x.watch_id removed gone in
          let (known, over) = surplus-is_finished protected watchers w out in
          let one = one_of_id watchers w x h known there same in
          absurd (cc (sym over ∙ ap (is_finished protected) one ∙ open_still))
    ] in
    IsIn-select (is_kept removed) x watchers there kept

-- A submission that succeeds overwrites and removes no watch that is active or that a loop waits
-- for: each is in the registry behind it as it was, and so is the new watch, active; the
-- identifiers of the registry are distinct.
pub submit-IsIn :
    (protected : List String) (now : ℕ) (id : String) (watchers behind : List Watcher)
    → are_distinct watchers ≡ true
    → submit protected now id watchers ≡ ok behind
    → IsIn (record { watch_id = id; state = active; updated_at = now }) behind
      × ((x : Watcher) → IsIn x watchers → is_finished protected x ≡ false → IsIn x behind)
submit-IsIn protected now id watchers behind h done =
    let w : Watcher = record { watch_id = id; state = active; updated_at = now } in
    let (fresh, saved) = submit-is_new protected now id watchers behind done in
    let grown = watchers ++ w ∷ [] in
    let distinct = append-are_distinct watchers w h fresh in
    (
      subst (IsIn w) (sym saved) (save-IsIn protected grown w distinct (last-IsIn w watchers) refl),
      λ x there open_still.
          subst (IsIn x) (sym saved)
            (save-IsIn protected grown x distinct (IsIn-append x w watchers there) open_still),
    )
