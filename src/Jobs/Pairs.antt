-- ===== src/Jobs/Pairs.antt =====
-- Arguments that are written as options with their values, as they are parsed.
use wait_skill.Prelude.{
  Bool, true, false, not, ◌&&◌, String, some, List, [], ◌∷◌, ◌++◌, ◌==◌, ok, elem, any, eq_iff,
  if◌then◌else◌, ◌≡◌, refl, ◌∙◌, arith, inl, inr, Bool-cases,
}
use wait_skill.Watch.Arguments.{
  path_options, absolute_wait_argv, split_argv, validate_job_argv, is_legacy, follows-cons,
  plain-cons, program_kept,
}
use wait_skill.Jobs.Parse.{
  Outside, all_acceptable, job_of, check_job, validated, parse_args, parse_job_args,
}
use wait_skill.Jobs.Submit.{insert_options}
use wait_skill.Jobs.Names.{
  option-begins_not, token-option, value-plain, item_of-value, item_of-path, item_of-option,
  option-current, token-switch, item_of-switch, switch-begins_not, switch-current,
}
use wait_skill.Jobs.Options.{
  is_switch, value_of, has_value, is_value, token_of, takes_value, switch, Given, parse_options,
}

-- A switch has no value behind it.
abbrev pub flat : List (String × String) → List String
flat [] = []
flat ((name, value) ∷ pairs) =
    let rest = flat pairs in if is_switch name then name ∷ rest else name ∷ value ∷ rest

-- An option that takes a value, and a text that can be its value; or a switch.
abbrev pub is_pair : String × String → Bool
is_pair (name, value) =
    if is_switch name
    then value == ""
    else has_value name && (is_value value && not (is_legacy value))

abbrev pub are_pairs : List (String × String) → Bool
are_pairs [] = true
are_pairs (pair ∷ pairs) = is_pair pair && are_pairs pairs

abbrev pub pushed : List (String × String) → Given → Given
pushed [] given = given
pushed (pair ∷ pairs) given = pushed pairs (pair ∷ given)

option-cons :
    (name value : String) (rest : List String) (given : Given)
    → token_of name ≡ takes_value
    → is_value value ≡ true
    → parse_options (name ∷ value ∷ rest) given ≡ parse_options rest ((name, value) ∷ given)
unfolding parse_options
option-cons name value rest given option fits = ground (arith, option, fits)

switch-cons :
    (name : String) (rest : List String) (given : Given)
    → token_of name ≡ switch
    → parse_options (name ∷ rest) given ≡ parse_options rest ((name, "") ∷ given)
unfolding parse_options
switch-cons name [] given on = ground (arith, on)
switch-cons name (next ∷ rest) given on = ground (arith, on)

-- Options with their values are taken as they are, up to the boundary.
pub parse_options-flat :
    (pairs : List (String × String)) (program : List String) (given : Given)
    → are_pairs pairs ≡ true
    → parse_options (flat pairs ++ "--" ∷ program) given ≡ ok (pushed pairs given, "--" ∷ program)
unfolding parse_options token_of
parse_options-flat [] [] given h = refl
parse_options-flat [] (item ∷ program) given h = refl
parse_options-flat ((name, value) ∷ pairs) program given h = elim (Bool-cases (is_switch name)) [
  | inl on ↦
      let none_given = (eq_iff value "").0 (ground (arith, h, on)) in
      let more = parse_options-flat pairs program ((name, "") ∷ given) (ground (arith, h)) in
      let first = switch-cons name (flat pairs ++ "--" ∷ program) given (token-switch name on) in
      ground (arith, on, none_given, first, more)
  | inr off ↦ ground (
    arith,
    off,
    option-cons name value (flat pairs ++ "--" ∷ program) given
          (token-option name (ground (arith, h, off))) (ground (arith, h, off))
        ∙ parse_options-flat pairs program ((name, value) ∷ given) (ground (arith, h)),
  )
]

-- Making paths absolute changes the values of path options.
abbrev pub resolved : (within : String → String) → List (String × String) → List (String × String)
resolved within [] = []
resolved within ((name, value) ∷ pairs) =
    let rest = resolved within pairs in
    (name, if elem name path_options then within value else value) ∷ rest

-- Making arguments absolute resolves the values of the path options that are given, and leaves the
-- other options and the program.
pub absolute_wait_argv-flat :
    (within : String → String) (pairs : List (String × String)) (program : List String)
    → are_pairs pairs ≡ true
    → absolute_wait_argv within (flat pairs ++ "--" ∷ program)
      ≡ flat (resolved within pairs) ++ "--" ∷ program
absolute_wait_argv-flat within [] program h = program_kept within program
absolute_wait_argv-flat within ((name, value) ∷ pairs) program h =
    let rest = flat pairs ++ "--" ∷ program in
    let more = absolute_wait_argv-flat within pairs program (ground (arith, h)) in
    elim (Bool-cases (is_switch name)) [
      | inl on ↦
          let first = plain-cons within name rest (item_of-switch name on) in
          ground (arith, on, first, more)
      | inr off ↦
          let known : has_value name ≡ true = ground (arith, h, off) in
          let fits : is_value value ≡ true = ground (arith, h, off) in
          let second = plain-cons within value rest (item_of-value value fits) in
          elim (Bool-cases (elem name path_options)) [
            | inl path ↦
                let first = follows-cons within name value rest (item_of-path name known path) in
                ground (arith, off, first, more, path)
            | inr other ↦
                let first =
                  plain-cons within name (value ∷ rest) (item_of-option name known other) in
                ground (arith, off, first, second, more, other)
          ]
    ]

-- The pairs as the parser keeps them.
abbrev pub given_by : List (String × String) → Given
given_by pairs = pushed pairs []

split_argv-flat :
    (pairs : List (String × String)) (program : List String)
    → are_pairs pairs ≡ true
    → split_argv (flat pairs ++ "--" ∷ program) ≡ some (flat pairs, program)
unfolding split_argv
split_argv-flat [] program h = refl
split_argv-flat ((name, value) ∷ pairs) program h =
    let more = split_argv-flat pairs program (ground (arith, h)) in
    elim (Bool-cases (is_switch name)) [
      | inl on ↦ ground (arith, on, more, switch-begins_not name on)
      | inr off ↦
          let starts = option-begins_not name (ground (arith, h, off)) in
          let (begins, unknown, apart) = value-plain value (ground (arith, h, off)) in
          ground (arith, off, more, starts, begins)
    ]

flat-current :
    (pairs : List (String × String)) → are_pairs pairs ≡ true → any is_legacy (flat pairs) ≡ false
flat-current [] h = refl
flat-current ((name, value) ∷ pairs) h =
    let more = flat-current pairs (ground (arith, h)) in
    elim (Bool-cases (is_switch name)) [
      | inl on ↦ ground (arith, on, more, switch-current name on)
      | inr off ↦
          let current = option-current name (ground (arith, h, off)) in
          ground (arith, off, more, current, h)
    ]

pub validated-flat :
    (pairs : List (String × String)) (first : String) (others : List String)
    → are_pairs pairs ≡ true
    → validated (flat pairs ++ "--" ∷ first ∷ others) ≡ ok tt
unfolding validate_job_argv
validated-flat pairs first others h =
    let apart = split_argv-flat pairs (first ∷ others) h in
    let current = flat-current pairs h in ground (arith, apart, current)

module _ (o : Outside) (pairs : List (String × String)) (label first : String)
    (others : List String) (are : are_pairs pairs ≡ true)
    (accepted : all_acceptable o (given_by pairs) ≡ true)
    (labelled_so : value_of "--label" (given_by pairs) ≡ some label) where
  pub parse_args-flat :
      parse_args o (flat pairs ++ "--" ∷ first ∷ others)
      ≡ ok (job_of (given_by pairs) label ("--" ∷ first ∷ others))
  unfolding parse_args
  parse_args-flat =
      let parsed = parse_options-flat pairs (first ∷ others) [] are in
      ground (arith, parsed, accepted, labelled_so)

  pub parse_job_args-flat :
      parse_job_args o (flat pairs ++ "--" ∷ first ∷ others)
      ≡ check_job o (job_of (given_by pairs) label (first ∷ others))
  unfolding parse_job_args
  parse_job_args-flat = ground (arith, validated-flat pairs first others are, parse_args-flat)

pub insert_options-flat :
    (items : List String) (pairs : List (String × String)) (program : List String)
    → are_pairs pairs ≡ true
    → insert_options items (flat pairs ++ "--" ∷ program) ≡ flat pairs ++ (items ++ "--" ∷ program)
unfolding insert_options
insert_options-flat items [] program h = refl
insert_options-flat items ((name, value) ∷ pairs) program h =
    let more = insert_options-flat items pairs program (ground (arith, h)) in
    elim (Bool-cases (is_switch name)) [
      | inl on ↦ ground (arith, on, more, switch-begins_not name on)
      | inr off ↦
          let starts = option-begins_not name (ground (arith, h, off)) in
          let (begins, unknown, apart) = value-plain value (ground (arith, h, off)) in
          ground (arith, off, more, starts, begins)
    ]
