-- ===== src/Jobs/Names.antt =====
-- The names of options and the values behind them, as the parser and `absolute_wait_argv` read them.
use wait_skill.Prelude.{
  Bool, true, false, not, String, none, some, List, [], ◌∷◌, ◌==◌, elem, all, eq_iff, ◌≡◌, refl,
  sym, subst, arith, inl, inr, Bool-cases, Option-cases,
}
use wait_skill.Watch.Arguments.{
  partition, item_of, path_options, is_legacy, path_follows, plain_item,
}
use wait_skill.Jobs.Options.{
  has_value, is_switch, value_options, joins_value, is_value, is_option, token_of, takes_value,
  switch,
}

abbrev stands_alone : String → Bool
stands_alone item = elim (partition item).1 [ none ↦ true | some value ↦ false ]

pub elem-all :
    (p : String → Bool) (x : String) (xs : List String)
    → all p xs ≡ true
    → elem x xs ≡ true
    → p x ≡ true
unfolding elem
elem-all p x [] every found = ground arith
elem-all p x (y ∷ xs) every found = elim (Bool-cases (y == x)) [
  | inl same ↦ subst (λ z. p z ≡ true) ((eq_iff y x).0 same) (ground (arith, every))
  | inr differs ↦ elem-all p x xs (ground (arith, every)) (ground (arith, found, differs))
]

option-alone : (name : String) → has_value name ≡ true → (partition name).1 ≡ none
unfolding has_value partition
option-alone name h = elim (Option-cases (partition name).1) [
  | inl e ↦ e
  | inr (value, e) ↦
      let alone = elem-all stands_alone name value_options refl h in ground (arith, alone, e)
]

pub option-begins_not : (name : String) → has_value name ≡ true → (name == "--") ≡ false
unfolding has_value
option-begins_not name h = elim (Bool-cases (name == "--")) [
  | inl e ↦
      let no = elem-all (λ x. not (x == "--")) name value_options refl h in ground (arith, no, e)
  | inr e ↦ e
]

path-has_value : (name : String) → elem name path_options ≡ true → has_value name ≡ true
unfolding has_value elem
path-has_value name h = elem-all has_value name path_options refl h

-- A name of an option is no value.
pub token-option : (name : String) → has_value name ≡ true → token_of name ≡ takes_value
unfolding token_of is_value is_option
token-option name h = ground (arith, option-begins_not name h)

pub value-plain :
    (value : String)
    → is_value value ≡ true
    → (value == "--" ≡ false) × (has_value value ≡ false) × (joins_value value ≡ false)
unfolding is_value is_option
value-plain value h = (ground (arith, h), ground (arith, h), ground (arith, h))

joined-value :
    (value after : String)
    → joins_value value ≡ false
    → (partition value).1 ≡ some after
    → elem (partition value).0 path_options ≡ false
unfolding joins_value
joined-value value after h e = elim (Bool-cases (elem (partition value).0 path_options)) [
  | inl found ↦ let known = path-has_value (partition value).0 found in ground (arith, known, h, e)
  | inr absent ↦ absent
]

no_path : (value : String) → has_value value ≡ false → elem value path_options ≡ false
no_path value h = elim (Bool-cases (elem value path_options)) [
  | inl found ↦ ground (arith, path-has_value value found, h)
  | inr absent ↦ absent
]

pub item_of-value : (value : String) → is_value value ≡ true → item_of value ≡ plain_item
unfolding item_of
item_of-value value h =
    let (begins, unknown, apart) = value-plain value h in
    let absent = no_path value unknown in
    elim (Option-cases (partition value).1) [
      | inl e ↦ ground (arith, begins, absent, e)
      | inr (after, e) ↦ ground (arith, begins, absent, e, joined-value value after apart e)
    ]

pub item_of-path :
    (name : String)
    → has_value name ≡ true
    → elem name path_options ≡ true
    → item_of name ≡ path_follows
unfolding item_of
item_of-path name h path = ground (arith, option-begins_not name h, option-alone name h, path)

pub item_of-option :
    (name : String)
    → has_value name ≡ true
    → elem name path_options ≡ false
    → item_of name ≡ plain_item
unfolding item_of
item_of-option name h path = ground (arith, option-begins_not name h, option-alone name h, path)

pub option-current : (name : String) → has_value name ≡ true → is_legacy name ≡ false
unfolding has_value is_legacy partition elem
option-current name h =
    let current = elem-all (λ x. not (is_legacy x)) name value_options refl h in
    ground (arith, current)

-- A switch is none of these either.
switch-name : (name : String) → is_switch name ≡ true → name ≡ "--no-notify"
switch-name name h = (eq_iff name "--no-notify").0 h

pub token-switch : (name : String) → is_switch name ≡ true → token_of name ≡ switch
unfolding token_of is_value is_option has_value elem
token-switch name h = subst (λ n. token_of n ≡ switch) (sym (switch-name name h)) refl

pub item_of-switch : (name : String) → is_switch name ≡ true → item_of name ≡ plain_item
unfolding item_of partition elem
item_of-switch name h = subst (λ n. item_of n ≡ plain_item) (sym (switch-name name h)) refl

pub switch-begins_not : (name : String) → is_switch name ≡ true → (name == "--") ≡ false
switch-begins_not name h = subst (λ n. (n == "--") ≡ false) (sym (switch-name name h)) refl

pub switch-current : (name : String) → is_switch name ≡ true → is_legacy name ≡ false
unfolding is_legacy partition elem
switch-current name h = subst (λ n. is_legacy n ≡ false) (sym (switch-name name h)) refl
