-- ===== src/Prelude/Dict.antt =====
-- Python's `dict` with text keys: the entries in order of insertion.
use mathlib.Core.Path.{◌≡◌, refl}
use mathlib.Core.Bool.{Bool, true, false, ◌||◌}
use mathlib.Core.Option.{Option, none, some}
use mathlib.Core.List.{List, [], ◌∷◌}
use Prim.Native.String.{String}
use native.Mathlib.Omega.{arith}
use text.Mathlib.Text.{◌==◌}
use text.Mathlib.TextEquality.{eq_iff}
use wait_skill.Prelude.Tests.{if◌then◌else◌}

abbrev pub Dict {ℓ} : Type ℓ → Type ℓ
Dict V = List (String × V)

module _ {ℓ} {V : Type ℓ} where
  -- `m.get(key)`
  unfoldable pub lookup : String → Dict V → Option V
  lookup key [] = none
  lookup key ((name, value) ∷ others) = if name == key then some value else lookup key others

  -- `m[key] = new`: the entry keeps its place, and a new key goes to the end.
  unfoldable pub insert : String → V → Dict V → Dict V
  insert key new [] = (key, new) ∷ []
  insert key new ((name, old) ∷ others) =
      if name == key then (name, new) ∷ others else (name, old) ∷ insert key new others

  -- `k in m`
  unfoldable pub contains : String → Dict V → Bool
  contains k [] = false
  contains k ((j, v) ∷ m) = j == k || contains k m

  unfoldable pub keys : Dict V → List String
  keys [] = []
  keys ((j, v) ∷ m) = j ∷ keys m

  unfoldable pub values : Dict V → List V
  values [] = []
  values ((j, v) ∷ m) = v ∷ values m

  -- `{k: v for k, v in m.items() if p(v)}`
  unfoldable pub select_values : (V → Bool) → Dict V → Dict V
  select_values p [] = []
  select_values p ((j, v) ∷ m) = let rest = select_values p m in if p v then (j, v) ∷ rest else rest

  unfoldable pub map_values : (V → V) → Dict V → Dict V
  map_values f [] = []
  map_values f ((j, v) ∷ m) = (j, f v) ∷ map_values f m

  pub lookup-insert :
      (at key : String) (new : V) (dict : Dict V)
      → lookup key (insert at new dict) ≡ (if at == key then some new else lookup key dict)
  unfolding insert lookup
  lookup-insert at key new [] = refl
  lookup-insert at key new ((name, old) ∷ others) =
      let rest = lookup-insert at key new others in
      ground (arith, rest, eq_iff name at, eq_iff name key, eq_iff at key)

  pub contains-eq-lookup :
      (k : String) (m : Dict V)
      → contains k m ≡ (elim (lookup k m) [ none ↦ false | some v ↦ true ])
  unfolding lookup contains
  contains-eq-lookup k [] = refl
  contains-eq-lookup k ((j, v) ∷ m) = ground (arith, contains-eq-lookup k m)

  pub contains-insert :
      (k j : String) (v : V) (m : Dict V) → contains j (insert k v m) ≡ (k == j || contains j m)
  unfolding contains insert
  contains-insert k j v [] = refl
  contains-insert k j v ((i, w) ∷ m) =
      ground (arith, eq_iff k j, eq_iff i k, eq_iff i j, contains-insert k j v m)

  -- No entry was selected, so the test fails at each value that the dict holds.
  pub lookup_of_none_selected :
      (p : V → Bool) (j : String) (v : V) (m : Dict V)
      → select_values p m ≡ []
      → lookup j m ≡ some v
      → p v ≡ false
  unfolding select_values lookup
  lookup_of_none_selected p j v [] e h = cc
  lookup_of_none_selected p j v ((i, w) ∷ m) e h = ground (arith, lookup_of_none_selected p j v m)

  pub lookup-map_values :
      (f : V → V) (j : String) (m : Dict V)
      → lookup j (map_values f m) ≡ (elim (lookup j m) [ none ↦ none | some v ↦ some (f v) ])
  unfolding lookup map_values
  lookup-map_values f j [] = refl
  lookup-map_values f j ((i, w) ∷ m) = ground (arith, lookup-map_values f j m)

  -- Nothing that one test keeps passes another: the other fails wherever the first holds.
  pub lookup_of_none_both :
      (p q : V → Bool) (j : String) (v : V) (m : Dict V)
      → keys (select_values q (select_values p m)) ≡ []
      → lookup j m ≡ some v
      → p v ≡ true
      → q v ≡ false
  unfolding select_values lookup keys
  lookup_of_none_both p q j v [] e h ok_p = cc
  lookup_of_none_both p q j v ((i, w) ∷ m) e h ok_p = ground (arith, lookup_of_none_both p q j v m)
