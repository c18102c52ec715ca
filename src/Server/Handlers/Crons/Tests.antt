-- ===== src/Server/Handlers/Crons/Tests.antt =====
-- Runs of the actions on cron jobs.
use vel.Common.{List, Option, Text, [], false, lit, none, refl, some, true, ◌==◌, ◌∷◌, ◌≡◌}
use vel.Std.Sample.{checksum}
use vel.Auth.Request.{Request, get_identity}
use vel.Auth.Telegram.{User}
use vel.Auth.Legacy.{Settings}
use vel.Server.Handlers.{acted, answer}
use vel.Server.Handlers.Tokens.{check_auth}
use vel.Server.Handlers.Crons.{
  CronAction, all_job_bytes, command_of, crons_action, is_valid_job_id, refuse_action,
}
use vel.Server.Handlers.Crons.Commands.{IsCommand, IsJobId, crons_action-IsCommand}

abbrev json : Text → Option User
json t = none

abbrev settings : Settings
settings = record {
  bot_token = [];
  allowed_users = [];
  cookie_secret = [];
  auth_mode = [];
  auth_token = [];
  scoped_tokens = [];
  test_mode = false;
}

abbrev post : Request
post = record {
  method = lit "POST";
  path = lit "/api/crons/action";
  raw_query = [];
  header = λ name. [];
  cookie = λ name. none;
  identity = some (record {
    user_id = lit "karthi";
    name = lit "Karthi";
    provider = lit "telegram";
    role = lit "admin";
    scopes = [];
    meta = [];
  });
}

abbrev backup : CronAction
backup = record { job_id = lit "backup-1"; action = lit "run" }

abbrev command : List Text
command = lit "openclaw" ∷ lit "cron" ∷ lit "run" ∷ lit "backup-1" ∷ []

option_refused : is_valid_job_id (lit "--help") ≡ false
unfolding is_valid_job_id
option_refused = refl

ran :
    crons_action checksum json true settings 100 (λ args. true) backup post
    ≡ (answer 200 (acted (lit "run") (lit "backup-1")), some command)
unfolding crons_action refuse_action check_auth get_identity is_valid_job_id all_job_bytes
    command_of ◌==◌
ran = refl

crons_action-IsCommand_example :
    (lit "POST" ≡ lit "POST")
    × (check_auth checksum json true settings 100 post ≡ true)
    × IsJobId (lit "backup-1")
    × IsCommand command (lit "backup-1")
crons_action-IsCommand_example =
    crons_action-IsCommand checksum json true settings 100 (λ args. true) backup post
      (answer 200 (acted (lit "run") (lit "backup-1"))) command ran
