-- ===== src/Jobs/Options.antt =====
-- src/runtime.py, `job_parser` and `add_runtime_arguments`: the options of a watcher, and how
-- `ArgumentParser` without abbreviations takes them.
use wait_skill.Prelude.{
  ℕ, Bool, true, false, not, ◌&&◌, ◌||◌, String, Option, none, some, List, [], ◌∷◌, ◌++◌, ◌==◌,
  Result, ok, err, any, all, elem, leb, nat_eq, if◌then◌else◌,
}
use wait_skill.Prelude.Text.{codes}
use wait_skill.Watch.Arguments.{partition}
use text.Mathlib.Text.{starts_with}

-- The options that take a value.
abbrev pub value_options : List String
value_options =
    "--label" ∷ "--timeout" ∷ "--client" ∷ "--session" ∷ "--thread" ∷ "--remote" ∷ "--resume-arg"
    ∷ "--lock-file" ∷ "--log-file" ∷ "--event-id" ∷ "--event-note" ∷ "--goal-state" ∷ "--goal-node"
    ∷ "--loop-state" ∷ "--startup-file" ∷ "--activation-interval" ∷ "--activation-timeout"
    ∷ "--wake-ack-timeout" ∷ "--notification-timeout" ∷ "--notification-retry-interval"
    ∷ "--max-notification-attempts" ∷ []

unfoldable pub has_value : String → Bool
has_value name = elem name value_options

abbrev pub is_switch : String → Bool
is_switch name = name == "--no-notify"

-- `-h` and `--help` end the parser.
abbrev is_help : String → Bool
is_help name = name == "-h" || name == "--help"

abbrev is_known : String → Bool
is_known name = has_value name || (is_switch name || is_help name)

-- An option with its value in one item.
unfoldable pub joins_value : String → Bool
joins_value item = elim (partition item).1 [
  | none ↦ false
  | some value ↦ is_known (partition item).0
]

abbrev is_digit : ℕ → Bool
is_digit c = leb b'0' c && leb c b'9'

abbrev are_digits : List ℕ → Bool
are_digits [] = false
are_digits (c ∷ cs) = is_digit c && all is_digit cs

-- Digits behind a point, which may have digits before it.
abbrev is_fraction : List ℕ → Bool
is_fraction [] = false
is_fraction (c ∷ cs) = (nat_eq c b'.' && are_digits cs) || (is_digit c && is_fraction cs)

-- A dash and a number, in ASCII digits.
abbrev is_negative_number : List ℕ → Bool
is_negative_number [] = false
is_negative_number (c ∷ cs) = nat_eq c b'-' && (are_digits cs || is_fraction cs)

-- An item that starts with a dash is taken for an option, unless it is a dash, a negative number,
-- or has a space in it and is no option with a value. What starts with `-h` asks for help.
unfoldable pub looks_like_option : String → Bool
looks_like_option item =
    starts_with item "-h"
    || (starts_with item "-"
        && not (
            item == "-"
            || (is_negative_number (codes item) || any (λ c. nat_eq c b' ') (codes item))))

unfoldable pub is_option : String → Bool
is_option item = is_known item || (joins_value item || looks_like_option item)

-- What can stand behind an option as its value, or begin the waiting program.
unfoldable pub is_value : String → Bool
is_value item = not (item == "--") && not (is_option item)

pub data Token : Type 0 where
  takes_value switch begins_command refused : Token
  holds : (name value : String) → Token

abbrev held : String × Option String → Token
held (name, none) = refused
held (name, some value) = if has_value name then holds name value else refused

unfoldable pub token_of : String → Token
unfolding is_value
token_of item =
    if item == "--" || is_value item
    then begins_command
    else if has_value item
    then takes_value
    else if is_switch item
    then switch
    else if joins_value item
    then held (partition item)
    else refused

-- What the parser has assigned so far, the last one first.
abbrev pub Given : Type 0
Given = List (String × String)

pub data JobError : Type 0 where
  bad_usage bad_value no_label no_command bad_resume same_path bad_event_id : JobError
  partial_handshake two_owners partial_integration : JobError

-- The options, and the command behind them: everything from the first item on that is neither an
-- option nor the value of one.
unfoldable pub parse_options : List String → Given → Result JobError (Given × List String)
parse_options [] given = ok (given, [])
parse_options (item ∷ []) given = elim (token_of item) [
  | begins_command ↦ ok (given, item ∷ [])
  | switch ↦ ok ((item, "") ∷ given, [])
  | holds name value ↦ ok ((name, value) ∷ given, [])
  | takes_value ↦ err bad_usage
  | refused ↦ err bad_usage
]
parse_options (item ∷ next ∷ rest) given = elim (token_of item) [
  | begins_command ↦ ok (given, item ∷ next ∷ rest)
  | switch ↦ parse_options (next ∷ rest) ((item, "") ∷ given)
  | holds name value ↦ parse_options (next ∷ rest) ((name, value) ∷ given)
  | takes_value ↦ elim (is_value next) [
    | true ↦ parse_options rest ((item, next) ∷ given)
    | false ↦ err bad_usage
  ]
  | refused ↦ err bad_usage
]

-- The last value of an option, under either of two names.
unfoldable pub last_of : (name alias : String) → Given → Option String
last_of name alias [] = none
last_of name alias ((key, value) ∷ given) =
    let rest = last_of name alias given in if key == name || key == alias then some value else rest

abbrev pub value_of : String → Given → Option String
value_of name given = last_of name name given

-- All values of an option, in order.
unfoldable pub values_of : String → Given → List String
values_of name [] = []
values_of name ((key, value) ∷ given) =
    let rest = values_of name given in if key == name then rest ++ value ∷ [] else rest
