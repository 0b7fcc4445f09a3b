-- ===== src/Watch/Arguments.antt =====
-- The arguments of a watch: `validate_job_argv` of src/runtime.py, and `absolute_wait_argv` of
-- src/waitd.py, which resolves paths against the directory of the submitting process.
use wait_skill.Prelude.{
  Bool, true, false, String, Option, none, some, ◌==◌, List, [], ◌∷◌, Result, err, ◌>>◌, raise_if,
  any, elem, nat_eq, if◌then◌else◌, ◌≡◌, refl, ◌++◌, arith, ap, sym, ◌∙◌,
}
use Prim.Native.Char.{code}
use Prim.Native.String

-- `item.partition("=")`: the text before the sign, and the text after it, if it is there.
unfoldable pub partition : String → String × Option String
partition String.[] = (String.[], none)
partition (String.◌∷◌ c s) =
    let rest = partition s in
    if nat_eq (code c) 61 then (String.[], some s) else (String.◌∷◌ c rest.0, rest.1)

abbrev pub path_options : List String
path_options =
    "--goal-state" ∷ "--loop-state" ∷ "--startup-file" ∷ "--log-file" ∷ "--lock-file" ∷ []

abbrev pub legacy_options : List String
legacy_options = "--ready" ∷ "--terminal" ∷ "--interval" ∷ "--query-timeout" ∷ []

-- What an item is: the boundary, a path option with or without its value, or anything else.
pub data Item : Type 0 where
  boundary path_follows plain_item : Item
  path_within : (option path : String) → Item

abbrev without_value : String → Item
without_value item = if elem item path_options then path_follows else plain_item

unfoldable pub item_of : String → Item
item_of item = if item == "--" then boundary else elim (partition item).1 [
  | none ↦ without_value item
  | some path ↦
      if elem (partition item).0 path_options
      then path_within (partition item).0 path
      else without_value item
]

-- `within` is `cwd / value`.
unfoldable pub absolute_wait_argv : (within : String → String) → List String → List String
absolute_wait_argv within [] = []
absolute_wait_argv within (item ∷ []) = elim (item_of item) [
  | path_within option path ↦ String.◌++◌ option (String.◌++◌ "=" (within path)) ∷ []
  | _ ↦ item ∷ []
]
absolute_wait_argv within (item ∷ next ∷ rest) = elim (item_of item) [
  | boundary ↦ item ∷ next ∷ rest
  | path_within option path ↦
      String.◌++◌ option (String.◌++◌ "=" (within path)) ∷ absolute_wait_argv within (next ∷ rest)
  | path_follows ↦ item ∷ within next ∷ absolute_wait_argv within rest
  | plain_item ↦ item ∷ absolute_wait_argv within (next ∷ rest)
]

pub data ArgvError : Type 0 where
  no_boundary legacy_options_given no_program : ArgvError

-- The items before the first boundary, and those behind it.
unfoldable pub split_argv : List String → Option (List String × List String)
split_argv [] = none
split_argv (item ∷ rest) =
    let parts = split_argv rest in
    if item == "--"
    then some ([], rest)
    else elim parts [ none ↦ none | some p ↦ some (item ∷ p.0, p.1) ]

abbrev is_none_left : List String → Bool
is_none_left [] = true
is_none_left _ = false

unfoldable pub is_legacy : String → Bool
is_legacy item = elem (partition item).0 legacy_options

unfoldable pub validate_job_argv : List String → Result ArgvError (Unit {0})
validate_job_argv argv = elim (split_argv argv) [
  | none ↦ err no_boundary
  | some p ↦ (do
    raise_if (any is_legacy p.0) legacy_options_given
    raise_if (is_none_left p.1) no_program)
]

-- Options as they are given: each path option that stands alone has its value behind it, and the
-- boundary is not among them.
pub data IsOptions : List String → Type 0 where
  no_options : IsOptions []
  bare :
      {item : String} {rest : List String}
      → item_of item ≡ plain_item
      → IsOptions rest
      → IsOptions (item ∷ rest)
  joined :
      {item option path : String} {rest : List String}
      → item_of item ≡ path_within option path
      → IsOptions rest
      → IsOptions (item ∷ rest)
  valued :
      {item path : String} {rest : List String}
      → item_of item ≡ path_follows
      → IsOptions rest
      → IsOptions (item ∷ path ∷ rest)

module _ (within : String → String) where
  pub plain-cons :
      (item : String) (rest : List String)
      → item_of item ≡ plain_item
      → absolute_wait_argv within (item ∷ rest) ≡ item ∷ absolute_wait_argv within rest
  unfolding absolute_wait_argv
  plain-cons item [] e = ground arith
  plain-cons item (next ∷ rest) e = ground arith

  within-cons :
      (item option path : String) (rest : List String)
      → item_of item ≡ path_within option path
      → absolute_wait_argv within (item ∷ rest)
        ≡ String.◌++◌ option (String.◌++◌ "=" (within path)) ∷ absolute_wait_argv within rest
  unfolding absolute_wait_argv
  within-cons item option path [] e = ground arith
  within-cons item option path (next ∷ rest) e = ground arith

  pub follows-cons :
      (item path : String) (rest : List String)
      → item_of item ≡ path_follows
      → absolute_wait_argv within (item ∷ path ∷ rest)
        ≡ item ∷ within path ∷ absolute_wait_argv within rest
  unfolding absolute_wait_argv
  follows-cons item path rest e = ground arith

  pub program_kept :
      (program : List String) → absolute_wait_argv within ("--" ∷ program) ≡ "--" ∷ program
  unfolding absolute_wait_argv item_of
  program_kept [] = refl
  program_kept (next ∷ rest) = refl

  -- When the items before the first boundary are options with their values, making them absolute
  -- leaves the boundary and the waiting program behind it as they are, and the options are
  -- resolved as they are without a program.
  pub absolute_wait_argv-append :
      (options program : List String)
      → IsOptions options
      → absolute_wait_argv within (options ++ "--" ∷ program)
        ≡ absolute_wait_argv within options ++ "--" ∷ program
  unfolding absolute_wait_argv
  absolute_wait_argv-append _ program no_options = program_kept program
  absolute_wait_argv-append _ program (bare {item} {rest} e o) =
      plain-cons item (rest ++ "--" ∷ program) e
      ∙ (ap (λ xs. item ∷ xs) (absolute_wait_argv-append rest program o)
          ∙ ap (λ xs. xs ++ "--" ∷ program) (sym (plain-cons item rest e)))
  absolute_wait_argv-append _ program (joined {item} {option} {path} {rest} e o) =
      let here = String.◌++◌ option (String.◌++◌ "=" (within path)) in
      within-cons item option path (rest ++ "--" ∷ program) e
      ∙ (ap (λ xs. here ∷ xs) (absolute_wait_argv-append rest program o)
          ∙ ap (λ xs. xs ++ "--" ∷ program) (sym (within-cons item option path rest e)))
  absolute_wait_argv-append _ program (valued {item} {path} {rest} e o) =
      follows-cons item path (rest ++ "--" ∷ program) e
      ∙ (ap (λ xs. item ∷ within path ∷ xs) (absolute_wait_argv-append rest program o)
          ∙ ap (λ xs. xs ++ "--" ∷ program) (sym (follows-cons item path rest e)))
