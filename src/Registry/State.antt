-- ===== src/Registry/State.antt =====
-- src/waitd.py, the registry of watches: `save`, `show`, `cancel`, and its part of `submit`.
use wait_skill.Prelude.{
  Option, none, some, raise_if, ◌>>◌, ℕ, Bool, true, false, not, ◌&&◌, List, [], ◌∷◌, String, ◌==◌,
  elem, select, drop, leb, Result, ok, err, if◌then◌else◌,
}
use text.Mathlib.Text.{starts_with}

-- `record["state"]`
pub data WatchState : Type 0 where
  active cancelled completed failed : WatchState

-- What the registry reads of a record; its time is a natural number of a small unit.
pub record Watcher : Type 0 where
  pub watch_id : String
  pub state : WatchState
  pub updated_at : ℕ

abbrev pub ids : List Watcher → List String
ids [] = []
ids (w ∷ watchers) = w.watch_id ∷ ids watchers

abbrev pub is_active : WatchState → Bool
is_active active = true
is_active _ = false

abbrev pub max_finished_watches : ℕ
max_finished_watches = 256

abbrev pub is_finished : (protected : List String) → Watcher → Bool
is_finished protected w = not (is_active w.state) && not (elem w.watch_id protected)

-- `sorted(..., reverse=True)`: what is equal keeps its order.
abbrev pub place : Watcher → List Watcher → List Watcher
place w [] = w ∷ []
place w (x ∷ watchers) =
    let rest = place w watchers in
    if leb x.updated_at w.updated_at then w ∷ x ∷ watchers else x ∷ rest

abbrev pub latest_first : List Watcher → List Watcher
latest_first [] = []
latest_first (w ∷ watchers) = place w (latest_first watchers)

-- The watches that a save removes; `protected` are the identifiers that loops wait for.
unfoldable pub surplus : (protected : List String) → List Watcher → List Watcher
surplus protected watchers =
    drop max_finished_watches (latest_first (select (is_finished protected) watchers))

abbrev pub is_kept : List Watcher → Watcher → Bool
is_kept removed w = not (elem w.watch_id (ids removed))

-- `save`: the registry that it writes.
unfoldable pub save : (protected : List String) → List Watcher → List Watcher
save protected watchers = select (is_kept (surplus protected watchers)) watchers

pub data RegistryError : Type 0 where
  unknown_watch ambiguous_prefix already_exists : RegistryError

abbrev pub starts_by : (token : String) → Watcher → Bool
starts_by token w = not (token == "") && starts_with w.watch_id token

abbrev pub only : List Watcher → Result RegistryError Watcher
only [] = err unknown_watch
only (w ∷ []) = ok w
only (w ∷ x ∷ matches) = err ambiguous_prefix

-- `show`, to the watch that it finds.
unfoldable pub show : (token : String) → List Watcher → Result RegistryError Watcher
show token watchers = only (select (starts_by token) watchers)

-- `record.update(state="cancelled", updated_at=now)`, of the record with that identifier.
abbrev pub cancelled_at : (now : ℕ) → (watch_id : String) → List Watcher → List Watcher
cancelled_at now id [] = []
cancelled_at now id (w ∷ watchers) =
    let rest = cancelled_at now id watchers in
    if w.watch_id == id
    then record w { state = cancelled; updated_at = now } ∷ watchers
    else w ∷ rest

-- `self.watchers.get(watch_id)`
abbrev pub find : (watch_id : String) → List Watcher → Option Watcher
find id [] = none
find id (w ∷ watchers) = let rest = find id watchers in if w.watch_id == id then some w else rest

abbrev pub cancel_found :
    (protected : List String) (now : ℕ) (watch_id : String)
    → List Watcher
    → Option Watcher
    → Result RegistryError (List Watcher × Bool)
cancel_found protected now id watchers none = err unknown_watch
cancel_found protected now id watchers (some w) =
    if is_active w.state
    then ok (save protected (cancelled_at now id watchers), false)
    else ok (watchers, true)

-- `cancel`: the registry behind it, and whether the request is a duplicate.
unfoldable pub cancel :
    (protected : List String) (now : ℕ) (watch_id : String)
    → List Watcher
    → Result RegistryError (List Watcher × Bool)
cancel protected now id watchers = cancel_found protected now id watchers (find id watchers)

-- `self.watchers[watch_id] = ...`: a dict keeps its order, and one record for an identifier.
abbrev pub put : Watcher → List Watcher → List Watcher
put w [] = w ∷ []
put w (x ∷ watchers) =
    let rest = put w watchers in if x.watch_id == w.watch_id then w ∷ watchers else x ∷ rest

-- What `submit` does with the registry.
unfoldable pub submit :
    (protected : List String) (now : ℕ) (watch_id : String)
    → List Watcher
    → Result RegistryError (List Watcher)
submit protected now id watchers =
    let w : Watcher = record { watch_id = id; state = active; updated_at = now } in
    raise_if (elem id (ids watchers)) already_exists >> ok (save protected (put w watchers))

-- The watches that `restore` takes up.
abbrev pub restored : List Watcher → List Watcher
restored watchers = select (λ w. is_active w.state) watchers
