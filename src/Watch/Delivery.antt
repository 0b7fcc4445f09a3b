-- ===== src/Watch/Delivery.antt =====
-- src/runtime.py, the command that wakes a client, and the policy of its delivery.
use wait_skill.Prelude.{
  ℕ, Bool, true, false, ◌&&◌, not, String, Option, none, some, ◌==◌, List, [], ◌∷◌, ◌++◌, Result,
  ok, err, ◌>>=◌, ◌>>◌, raise_unless, ◌≡◌, ◌∙◌, ap, refl, >>=-eq-ok, if◌then◌else◌,
}
use text.Mathlib.Text.{starts_with}
use Prim.Native.String
use wait_skill.Goal.State.{Client, claude, codewiz, codex, copilot, cursor}

pub data DeliveryError : Type 0 where
  bad_resume_args no_endpoint needs_follow : DeliveryError

abbrev pub is_codex : Client → Bool
is_codex codex = true
is_codex _ = false

-- One option is let through: the name of the variable that holds the token.
abbrev pub is_token_option : List String → Bool
is_token_option (a ∷ []) = starts_with a "--remote-auth-token-env="
is_token_option (a ∷ b ∷ []) = a == "--remote-auth-token-env" && not (starts_with b "-")
is_token_option _ = false

unfoldable pub validate_codex_resume_args : List String → Result DeliveryError (Unit {0})
validate_codex_resume_args [] = ok tt
validate_codex_resume_args (a ∷ rest) = raise_unless (is_token_option (a ∷ rest)) bad_resume_args

abbrev pub endpoint : Option String → Result DeliveryError String
endpoint none = err no_endpoint
endpoint (some remote) = if remote == "" then err no_endpoint else ok remote

abbrev resume : String → String
resume session = String.◌++◌ "--resume=" session

-- `python` is `sys.executable` and `script` is the path of codex.py.
unfoldable pub notification_command :
    (python script : String) (client : Client) (session message : String) (remote : Option String)
    (resume_args : List String)
    → Result DeliveryError (List String)
notification_command python script codex session message remote resume_args = do
  validate_codex_resume_args resume_args
  url ← endpoint remote
  ok (
      python ∷ script ∷ "--remote" ∷ url ∷ "--session" ∷ session ∷ []
      ++ resume_args
      ++ "--message" ∷ message ∷ [])
notification_command python script codewiz session message remote resume_args =
    ok ("codewiz" ∷ "run" ∷ "--session" ∷ session ∷ [] ++ resume_args ++ message ∷ [])
notification_command python script cursor session message remote resume_args =
    ok ("cursor-agent" ∷ "--print" ∷ resume session ∷ [] ++ resume_args ++ message ∷ [])
notification_command python script claude session message remote resume_args = err needs_follow
notification_command python script copilot session message remote resume_args =
    ok ("copilot" ∷ resume session ∷ [] ++ resume_args ++ "--prompt" ∷ message ∷ [])

-- The policy of a delivery; seconds as natural numbers.
unfoldable pub notification_limits : Client → (attempts timeout : Option ℕ) → ℕ × ℕ
notification_limits client attempts timeout = (
  elim attempts [ some n ↦ n | none ↦ if is_codex client then 12 else 1 ],
  elim timeout [ some n ↦ n | none ↦ if is_codex client then 60 else 3600 ],
)

-- The message as the last of some arguments.
abbrev pub EndsWith : String → List String → Type 0
EndsWith message argv = (before : List String) × (before ++ message ∷ [] ≡ argv)

ok-injective : {a b : List String} → Path (Result DeliveryError (List String)) (ok a) (ok b) → a ≡ b
ok-injective h = cc

after :
    (xs : List String) (word message : String)
    → (xs ++ word ∷ []) ++ message ∷ [] ≡ xs ++ word ∷ message ∷ []
after [] word message = refl
after (x ∷ xs) word message = ap (λ zs. x ∷ zs) (after xs word message)

-- A client that is started by a command gets the message as the command's last argument, whatever
-- arguments are passed on before it.
pub notification_command-message :
    (python script : String) (client : Client) (session message : String) (remote : Option String)
    (resume_args argv : List String)
    → notification_command python script client session message remote resume_args ≡ ok argv
    → EndsWith message argv
unfolding notification_command
notification_command-message python script claude session message remote resume_args argv h = cc
notification_command-message python script codex session message remote resume_args argv h =
    let (u, p, q) = >>=-eq-ok (validate_codex_resume_args resume_args) _ h in
    let (url, r, t) = >>=-eq-ok (endpoint remote) _ q in
    let head : List String = python ∷ script ∷ "--remote" ∷ url ∷ "--session" ∷ session ∷ [] in
    (
      (head ++ resume_args) ++ "--message" ∷ [],
      after (head ++ resume_args) "--message" message ∙ ok-injective t,
    )
notification_command-message python script codewiz session message remote resume_args argv h =
    (("codewiz" ∷ "run" ∷ "--session" ∷ session ∷ []) ++ resume_args, ok-injective h)
notification_command-message python script cursor session message remote resume_args argv h =
    (("cursor-agent" ∷ "--print" ∷ resume session ∷ []) ++ resume_args, ok-injective h)
notification_command-message python script copilot session message remote resume_args argv h =
    let head : List String = "copilot" ∷ resume session ∷ [] in
    (
      (head ++ resume_args) ++ "--prompt" ∷ [],
      after (head ++ resume_args) "--prompt" message ∙ ok-injective h,
    )
