-- ===== src/Server/Handlers/Crons.antt =====
-- internal/server/server.go: /api/crons/action and `isValidJobID`. The command that the handler runs
-- is its arguments; whether it succeeds is an argument of the model.
pub mod Commands
mod Tests
use vel.Common.{
  Bool, List, Option, Text, [], eqb, false, if◌then◌else◌, leb, length, lit, none, not, some, true,
  ℕ, ◌&&◌, ◌++◌, ◌==◌, ◌||◌, ◌∷◌,
}
use vel.Std.Crypto.{Crypto}
use vel.Auth.Request.{Request}
use vel.Auth.Telegram.{User}
use vel.Auth.Legacy.{Settings}
use vel.Server.Handlers.{Response, acted, answer, refusal}
use vel.Server.Handlers.Tokens.{check_auth}

abbrev pub is_alphanumeric : ℕ → Bool
is_alphanumeric c =
    (leb b'a' c && leb c b'z') || ((leb b'A' c && leb c b'Z') || (leb b'0' c && leb c b'9'))

abbrev pub is_job_byte : ℕ → Bool
is_job_byte c = is_alphanumeric c || (eqb c b'.' || (eqb c b'-' || eqb c b'_'))

unfoldable pub all_job_bytes : Text → Bool
all_job_bytes [] = true
all_job_bytes (c ∷ s) = is_job_byte c && all_job_bytes s

unfoldable pub is_valid_job_id : Text → Bool
is_valid_job_id [] = false
is_valid_job_id (c ∷ s) = leb (length (c ∷ s)) 64 && (is_alphanumeric c && all_job_bytes s)

-- The body; a field is empty where it does not decode.
pub record CronAction : Type 0 where
  pub job_id : Text
  pub action : Text

abbrev pub is_action : Text → Bool
is_action a = a == lit "run" || (a == lit "enable" || a == lit "disable")

-- The arguments of `exec.Command`, the program first.
unfoldable pub command_of : CronAction → List Text
command_of b =
    let openclaw : List Text = lit "openclaw" ∷ lit "cron" ∷ [] in
    if b.action == lit "run"
    then openclaw ++ lit "run" ∷ b.job_id ∷ []
    else if b.action == lit "enable"
    then openclaw ++ lit "update" ∷ b.job_id ∷ lit "--enabled" ∷ lit "true" ∷ []
    else openclaw ++ lit "update" ∷ b.job_id ∷ lit "--enabled" ∷ lit "false" ∷ []

module _ (h : Crypto) (decode_user : Text → Option User) where
  -- What the handler refuses before it runs a command.
  unfoldable pub refuse_action : Bool → Settings → ℕ → CronAction → Request → Option Response
  refuse_action managed s now b r =
      if not (r.method == lit "POST")
      then some (refusal 405 (lit "Method not allowed"))
      else if not (check_auth h decode_user managed s now r)
      then some (refusal 403 (lit "Unauthorized"))
      else if b.job_id == [] || b.action == []
      then some (refusal 400 (lit "Missing jobId or action"))
      else if not (is_valid_job_id b.job_id)
      then some (refusal 400 (lit "Invalid jobId format"))
      else if not (is_action b.action)
      then some (refusal 400 (lit "Invalid action"))
      else none

  -- The response, with the command that was run.
  unfoldable pub crons_action :
      Bool
      → Settings
      → ℕ
      → (List Text → Bool)
      → CronAction
      → Request
      → Response × Option (List Text)
  crons_action managed s now succeeds b r = elim (refuse_action managed s now b r) [
    | some response ↦ (response, none)
    | none ↦
        if succeeds (command_of b)
        then (answer 200 (acted b.action b.job_id), some (command_of b))
        else (refusal 500 (lit "Action failed"), some (command_of b))
  ]
