-- ===== src/Server/Handlers/Crons/Commands.antt =====
-- Which commands the actions on cron jobs can run.
use vel.Common.{
  ==_iff, All, Bool, Bool-cases, List, Option, Option-cases, Text, [], arith, inl, inr, length, lit,
  none, refl, some, subst, true, ℕ, ◌==◌, ◌∷◌, ◌≡◌, ◌≤◌, ◌⊎◌,
}
use vel.Std.Crypto.{Crypto}
use vel.Auth.Request.{Request}
use vel.Auth.Telegram.{User}
use vel.Auth.Legacy.{Settings}
use vel.Server.Handlers.{Response}
use vel.Server.Handlers.Tokens.{check_auth}
use vel.Server.Handlers.Crons.{
  CronAction, all_job_bytes, command_of, crons_action, is_alphanumeric, is_job_byte,
  is_valid_job_id, refuse_action,
}

-- A name of at most 64 bytes: a letter or a digit, then letters, digits, dots, dashes and
-- underscores. It is no option of a command.
abbrev pub IsJobId : Text → Type 0
IsJobId id =
    (c : ℕ) × (rest : Text) × (id ≡ c ∷ rest)
    × (is_alphanumeric c ≡ true)
    × All (λ d. is_job_byte d ≡ true) rest
    × (length id ≤ 64)

all_job_bytes-All : (s : Text) → all_job_bytes s ≡ true → All (λ d. is_job_byte d ≡ true) s
unfolding all_job_bytes
all_job_bytes-All [] h = tt
all_job_bytes-All (c ∷ s) h = (ground arith, all_job_bytes-All s (ground arith))

is_valid_job_id-IsJobId : (id : Text) → is_valid_job_id id ≡ true → IsJobId id
unfolding is_valid_job_id
is_valid_job_id-IsJobId [] h = absurd (ground arith)
is_valid_job_id-IsJobId (c ∷ s) h =
    (c, s, refl, ground arith, all_job_bytes-All s (ground arith), ground arith)

-- The job runs, or is enabled or disabled.
abbrev pub IsCommand : List Text → Text → Type 0
IsCommand args id =
    (args ≡ lit "openclaw" ∷ lit "cron" ∷ lit "run" ∷ id ∷ [])
    ⊎ ((args ≡ lit "openclaw" ∷ lit "cron" ∷ lit "update" ∷ id ∷ lit "--enabled" ∷ lit "true" ∷ [])
        ⊎ (args
            ≡ lit "openclaw" ∷ lit "cron" ∷ lit "update" ∷ id ∷ lit "--enabled" ∷ lit "false" ∷ []))

command_of-IsCommand : (b : CronAction) → IsCommand (command_of b) b.job_id
unfolding command_of
command_of-IsCommand b = elim (Bool-cases (b.action == lit "run")) [
  | inl run ↦ rw run (inl refl)
  | inr other ↦ elim (Bool-cases (b.action == lit "enable")) [
    | inl enable ↦ rw (other, enable) (inr (inl refl))
    | inr disable ↦ rw (other, disable) (inr (inr refl))
  ]
]

module _ (h : Crypto) (decode_user : Text → Option User) where
  refuse_action-none :
      (managed : Bool) (s : Settings) (now : ℕ) (b : CronAction) (r : Request)
      → refuse_action h decode_user managed s now b r ≡ none
      → (r.method ≡ lit "POST")
        × (check_auth h decode_user managed s now r ≡ true)
        × (is_valid_job_id b.job_id ≡ true)
  unfolding refuse_action
  refuse_action-none managed s now b r e = elim (Bool-cases (r.method == lit "POST")) [
    | inr other ↦ absurd (ground arith)
    | inl post ↦ elim (Bool-cases (check_auth h decode_user managed s now r)) [
      | inr stranger ↦ absurd (ground arith)
      | inl login ↦ elim (Bool-cases (is_valid_job_id b.job_id)) [
        | inl valid ↦ ((==_iff r.method (lit "POST")).0 post, login, valid)
        | inr invalid ↦ absurd (ground arith)
      ]
    ]
  ]

  -- A command is run only for a POST with a login, and it is one of three, whose only part that
  -- the client chooses is the name of a job: at most 64 bytes, none of them a space, and no dash in
  -- front, so that it is never read as an option.
  pub crons_action-IsCommand :
      (managed : Bool) (s : Settings) (now : ℕ) (succeeds : List Text → Bool) (b : CronAction)
      (r : Request) (response : Response) (args : List Text)
      → crons_action h decode_user managed s now succeeds b r ≡ (response, some args)
      → (r.method ≡ lit "POST")
        × (check_auth h decode_user managed s now r ≡ true)
        × IsJobId b.job_id
        × IsCommand args b.job_id
  unfolding crons_action
  crons_action-IsCommand managed s now succeeds b r response args e =
      elim (Option-cases (refuse_action h decode_user managed s now b r)) [
        | inr (refused, k) ↦ absurd (ground arith)
        | inl goes ↦
            let (post, login, named) = refuse_action-none managed s now b r goes in
            let ran : command_of b ≡ args = ground arith in
            (
              post,
              login,
              is_valid_job_id-IsJobId b.job_id named,
              subst (λ x. IsCommand x b.job_id) ran (command_of-IsCommand b),
            )
      ]
