-- ===== src/Jobs/Timers.antt =====
-- src/loop.py, `timer_argv`: the watcher that waits until a loop runs again.
use wait_skill.Prelude.{
  Bool, true, false, String, Option, none, some, List, [], ◌∷◌, ◌++◌, if◌then◌else◌,
}
use wait_skill.Prelude.Text.{nonempty}
use wait_skill.Goal.State.{client_name}
use wait_skill.Loop.State.{LoopState}
pub mod Parsed
pub mod Registered
pub mod Extra
pub mod Current

-- What the arguments take from outside: `log` and `lock` are the files beside that of the loop,
-- `timeout` is the text of the time that is left and a minute, at least a second.
pub record Clock : Type 0 where
  pub log : (path watch_id : String) → String
  pub lock : (log : String) → String
  pub timeout : LoopState → String
  pub python : String
  pub script : String

-- `str(state["watch_id"])`
abbrev pub id_text : LoopState → String
id_text s = elim s.watch_id [ none ↦ "None" | some id ↦ id ]

abbrev pub option_argv : (option : String) → Option String → List String
option_argv option none = []
option_argv option (some value) = if nonempty value then option ∷ value ∷ [] else []

abbrev pub due_argv : Clock → (path watch_id : String) → List String
due_argv c path id = c.script ∷ "due" ∷ "--wait" ∷ "--state" ∷ path ∷ "--watch-id" ∷ id ∷ []

unfoldable pub timer_argv : Clock → LoopState → (path : String) → List String
timer_argv c s path =
    ("--label"
      ∷ "loop timer"
      ∷ "--timeout"
      ∷ c.timeout s
      ∷ "--client"
      ∷ client_name s.client
      ∷ "--session"
      ∷ s.session
      ∷ "--event-id"
      ∷ id_text s
      ∷ "--loop-state"
      ∷ path
      ∷ "--log-file"
      ∷ c.log path (id_text s)
      ∷ "--lock-file"
      ∷ c.lock (c.log path (id_text s))
      ∷ [])
    ++ (if s.no_notify then "--no-notify" ∷ [] else [])
    ++ option_argv "--event-note" s.event_note
    ++ option_argv "--remote" s.remote
    ++ "--" ∷ c.python ∷ due_argv c path (id_text s)

abbrev pub option_pairs : (option : String) → Option String → List (String × String)
option_pairs option none = []
option_pairs option (some value) = if nonempty value then (option, value) ∷ [] else []

-- The options that a timer always has, and those behind them.
abbrev pub base_pairs : Clock → LoopState → (path : String) → List (String × String)
base_pairs c s path =
    ("--label", "loop timer")
    ∷ ("--timeout", c.timeout s)
    ∷ ("--client", client_name s.client)
    ∷ ("--session", s.session)
    ∷ ("--event-id", id_text s)
    ∷ ("--loop-state", path)
    ∷ ("--log-file", c.log path (id_text s))
    ∷ ("--lock-file", c.lock (c.log path (id_text s)))
    ∷ []

abbrev pub more_pairs : LoopState → List (String × String)
more_pairs s =
    (if s.no_notify then ("--no-notify", "") ∷ [] else [])
    ++ option_pairs "--event-note" s.event_note
    ++ option_pairs "--remote" s.remote

abbrev pub timer_pairs : Clock → LoopState → (path : String) → List (String × String)
timer_pairs c s path = base_pairs c s path ++ more_pairs s
