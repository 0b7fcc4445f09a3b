-- ===== src/Codex/Rpc.antt =====
-- src/codex.py, the calls over JSON-RPC: `AppServer.call`.
use wait_skill.Prelude.{
  ℕ, Bool, true, false, not, ◌&&◌, Option, none, some, List, [], ◌∷◌, String, ◌==◌, Result, ok, err,
  if◌then◌else◌, nat_eq,
}

-- The classes of exceptions that the code tells apart. RpcError and Unconfirmed are subclasses of
-- ValueError; `other_error` is any class that no handler names.
pub data Raised : Type 0 where
  os_error value_error key_error type_error other_error rpc_error unconfirmed_error : Raised

-- What `json.loads` gives. A number that equals a natural number is `number`, as are the truth
-- values, which equal 0 and 1; null, lists and the other numbers are `other`.
mutual
  pub data Json : Type 0 where
    object : Fields → Json
    text : String → Json
    number : ℕ → Json
    other : Json

  pub data Fields : Type 0 where
    no_fields : Fields
    field : String → Json → Fields → Fields

-- `fields.get(name)`
abbrev pub get : String → Fields → Option Json
get name no_fields = none
get name (field key value fields) =
    let rest = get name fields in if name == key then some value else rest

abbrev pub has : String → Fields → Bool
has name fields = elim (get name fields) [ none ↦ false | some value ↦ true ]

-- `fields[name]`
abbrev pub item : String → Fields → Result Raised Json
item name fields = elim (get name fields) [ none ↦ err key_error | some value ↦ ok value ]

-- `value[name]`, for a value of any type.
abbrev pub item_of : String → Json → Result Raised Json
item_of name (object fields) = item name fields
item_of name _ = err type_error

abbrev pub is_text : String → Option Json → Bool
is_text s (some (text t)) = t == s
is_text s _ = false

abbrev pub is_number : ℕ → Option Json → Bool
is_number n (some (number m)) = nat_eq m n
is_number n _ = false

-- What one call meets: a failure to send the request, and what the calls of `receive` return or
-- raise, in order. Behind the last one the deadline passes.
pub record Exchange : Type 0 where
  pub send_fails : Option Raised
  pub messages : List (Result Raised Json)

-- The result of a response.
abbrev pub response : Fields → Result Raised Fields
response m =
    if has "error" m
    then err rpc_error
    else elim (get "result" m) [ some (object result) ↦ ok result | _ ↦ err value_error ]

-- The loop of `call`. A message that is no object is refused by `receive`.
unfoldable pub await_response : (request_id : ℕ) → List (Result Raised Json) → Result Raised Fields
await_response id [] = err os_error
await_response id (err e ∷ messages) = err e
await_response id (ok (object m) ∷ messages) =
    let rest = await_response id messages in
    if is_number id (get "id" m) && not (has "method" m)
    then response m
    else if has "id" m && has "method" m
    then err os_error
    else rest
await_response id (ok (text s) ∷ messages) = err value_error
await_response id (ok (number n) ∷ messages) = err value_error
await_response id (ok other ∷ messages) = err value_error

unfoldable pub call : (request_id : ℕ) → Exchange → Result Raised Fields
call id x = elim x.send_fails [ some e ↦ err e | none ↦ await_response id x.messages ]
