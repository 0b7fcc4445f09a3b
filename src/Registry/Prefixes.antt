-- ===== src/Registry/Prefixes.antt =====
-- src/waitd.py, `show`: a watch by a prefix of its identifier.
use wait_skill.Prelude.{
  true, false, ◌≡◌, ◌≢◌, ◌∙◌, refl, sym, ap, List, [], ◌∷◌, String, ◌==◌, select, ok, err, arith,
  inl, inr,
}
use text.Mathlib.Text.{starts_with}
use wait_skill.Registry.State.{Watcher, ambiguous_prefix, starts_by, only, show}
use wait_skill.Registry.Sorting.{IsIn, IsIn-select, select-IsIn}

only-IsIn :
    (matches : List Watcher) (w : Watcher)
    → only matches ≡ ok w
    → IsIn w matches × ((x : Watcher) → IsIn x matches → x ≡ w)
only-IsIn [] w h = absurd (cc h)
only-IsIn (x ∷ []) w h =
    let same : x ≡ w = cc h in
    (inl same, λ y here. elim here [ inl at ↦ sym at ∙ same | inr none_left ↦ absurd none_left ])
only-IsIn (x ∷ y ∷ matches) w h = absurd (cc h)

-- A watch that `show` finds is in the registry, its identifier starts with the token, and no other
-- watch has that; the token is not empty.
pub show-IsIn :
    (token : String) (watchers : List Watcher) (w : Watcher)
    → show token watchers ≡ ok w
    → IsIn w watchers
      × (starts_with w.watch_id token ≡ true)
      × ((token == "") ≡ false)
      × ((x : Watcher) → IsIn x watchers → starts_with x.watch_id token ≡ true → x ≡ w)
unfolding show
show-IsIn token watchers w h =
    let found = only-IsIn (select (starts_by token) watchers) w h in
    let there = select-IsIn (starts_by token) w watchers found.0 in
    let token_given : (token == "") ≡ false = ground (arith, there.1) in
    (
      there.0,
      ground (arith, there.1),
      token_given,
      λ x known fits.
          found.1 x
            (IsIn-select (starts_by token) x watchers known (ground (arith, token_given, fits))),
    )

only-two :
    (matches : List Watcher) (x w : Watcher)
    → IsIn x matches
    → IsIn w matches
    → x.watch_id ≢ w.watch_id
    → only matches ≡ err ambiguous_prefix
only-two [] x w here there apart = absurd here
only-two (z ∷ []) x w (inl at_x) (inl at_w) apart =
    absurd (apart (ap (λ y. y.watch_id) (sym at_x ∙ at_w)))
only-two (z ∷ []) x w (inl at_x) (inr none_left) apart = absurd none_left
only-two (z ∷ []) x w (inr none_left) there apart = absurd none_left
only-two (z ∷ y ∷ matches) x w here there apart = refl

-- A token that starts the identifiers of two different watches is refused as ambiguous, also when
-- it is the whole identifier of one of them.
pub show-ambiguous :
    (token : String) (watchers : List Watcher) (x w : Watcher)
    → (token == "") ≡ false
    → IsIn x watchers
    → IsIn w watchers
    → starts_with x.watch_id token ≡ true
    → starts_with w.watch_id token ≡ true
    → x.watch_id ≢ w.watch_id
    → show token watchers ≡ err ambiguous_prefix
unfolding show
show-ambiguous token watchers x w given known_x known_w fits_x fits_w apart =
    only-two (select (starts_by token) watchers) x w
      (IsIn-select (starts_by token) x watchers known_x (ground (arith, given, fits_x)))
      (IsIn-select (starts_by token) w watchers known_w (ground (arith, given, fits_w))) apart
