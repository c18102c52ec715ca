-- ===== src/Auth/Providers/Telegram.antt =====
-- internal/auth/provider_telegram.go. The bot token is that of the package, which ValidateInitData
-- reads; the one that the provider keeps is never read.
use vel.Common.{
  ==_iff, Bool, Bool-cases, In, List, Option, Option-cases, Text, [], any_sound, ap, arith,
  find_first, has_prefix, if◌then◌else◌, inl, inr, lit, none, not, refl, some, subst, sym,
  trim_prefix, true, ℕ, ◌&&◌, ◌==◌, ◌∙◌, ◌∷◌, ◌≡◌,
}
use vel.Std.Crypto.{Crypto}
use vel.Auth.Types.{Identity}
use vel.Auth.Request.{Request}
use vel.Auth.Users.{
  UserIdentity, UserRecord, UserStore, find_user_by_identity, get_all_users, has_identity,
}
use vel.Auth.Telegram.{User, parse_int, validate_init_data}
use vel.Auth.Telegram.Decimal.{InRange, format_int, parse_int-format}
use vel.Auth.Telegram.Valid.{IsSigned, validate_init_data_iff}
use vel.Auth.Providers.{
  Credentials, Provider, api_key_credentials, magic_link_credentials, telegram_credentials,
}

-- The data behind the scheme `tma`; empty where the header has another.
abbrev tma : Request → Text
tma r =
    let auth_header = r.header (lit "Authorization") in
    if has_prefix auth_header (lit "tma ") then trim_prefix auth_header (lit "tma ") else []

unfoldable pub telegram_extract : Request → Option Credentials
telegram_extract r =
    let init_data = r.header (lit "X-Telegram-Init-Data") in
    if not (tma r == [])
    then some (telegram_credentials (tma r))
    else if not (init_data == [])
    then some (telegram_credentials init_data)
    else none

abbrev pub telegram_identity : UserRecord → Text → Text → Text → Identity
telegram_identity rec provider_id first_name username = record {
  user_id = rec.id;
  name = rec.name;
  provider = lit "telegram";
  role = rec.role;
  scopes = [];
  meta =
      (lit "telegram_id", provider_id)
      ∷ (lit "telegram_name", first_name)
      ∷ (lit "telegram_username", username)
      ∷ [];
}

unfoldable pub telegram_user : UserStore → User → Option Identity
telegram_user us u =
    let provider_id = format_int u.id in
    elim (find_user_by_identity us (lit "telegram") provider_id) [
      | none ↦ none
      | some rec ↦ some (telegram_identity rec provider_id u.first_name u.username)
    ]

module _ (c : Crypto) (bot_token : Text) (us : UserStore) (decode_user : Text → Option User) where
  unfoldable pub telegram_authenticate : ℕ → Credentials → Option Identity
  telegram_authenticate now (telegram_credentials init_data) =
      elim (validate_init_data c bot_token decode_user now init_data) [
        | none ↦ none
        | some u ↦ telegram_user us u
      ]
  telegram_authenticate now (api_key_credentials key) = none
  telegram_authenticate now (magic_link_credentials token) = none

  unfoldable pub telegram_provider : {W : Type 0} → ℕ → Provider W
  telegram_provider now = record {
    name = lit "telegram";
    extract = telegram_extract;
    authenticate = λ w creds. (telegram_authenticate now creds, w);
  }

-- The record lists an account of Telegram whose number is this one.
abbrev pub HasAccount : User → UserRecord → Type 0
HasAccount u rec =
    (ident : UserIdentity) × In ident rec.identities
    × (ident.provider ≡ lit "telegram")
    × (parse_int ident.provider_id ≡ u.id)

find_first_sound :
    (p : UserRecord → Bool) (xs : List UserRecord) (x : UserRecord)
    → find_first p xs ≡ some x
    → In x xs × (p x ≡ true)
find_first_sound p [] x h = absurd (ground arith)
find_first_sound p (y ∷ ys) x h = elim (Bool-cases (p y)) [
  | inl hit ↦ let same : y ≡ x = ground arith in (inl (sym same), subst (λ z. p z ≡ true) same hit)
  | inr miss ↦ let (i, e) = find_first_sound p ys x (ground arith) in (inr i, e)
]

has_identity-HasAccount :
    (u : User) (rec : UserRecord)
    → InRange u.id
    → has_identity (lit "telegram") (format_int u.id) rec ≡ true
    → HasAccount u rec
has_identity-HasAccount u rec range h =
    let (ident, i, e) =
      any_sound (λ x. (x.provider == lit "telegram") && (x.provider_id == format_int u.id))
        rec.identities h in
    (
      ident,
      i,
      (==_iff ident.provider (lit "telegram")).0 (ground arith),
      ap parse_int ((==_iff ident.provider_id (format_int u.id)).0 (ground arith))
          ∙ parse_int-format u.id range,
    )

pub found-HasAccount :
    (us : UserStore) (u : User) (rec : UserRecord)
    → InRange u.id
    → find_user_by_identity us (lit "telegram") (format_int u.id) ≡ some rec
    → In rec (get_all_users us) × HasAccount u rec
unfolding find_user_by_identity get_all_users
found-HasAccount us u rec range h = elim (Option-cases us.contents) [
  | inl nothing ↦ absurd (ground arith)
  | inr (uf, e) ↦
      let (i, k) =
        find_first_sound (has_identity (lit "telegram") (format_int u.id)) uf.users rec
          (ground arith) in
      (rw e i, has_identity-HasAccount u rec range k)
]

telegram_user-some :
    (us : UserStore) (u : User) (id : Identity)
    → InRange u.id
    → telegram_user us u ≡ some id
    → (rec : UserRecord) × In rec (get_all_users us)
      × HasAccount u rec
      × (id ≡ telegram_identity rec (format_int u.id) u.first_name u.username)
unfolding telegram_user
telegram_user-some us u id range h =
    elim (Option-cases (find_user_by_identity us (lit "telegram") (format_int u.id))) [
      | inl nobody ↦ absurd (ground arith)
      | inr (rec, e) ↦ let (i, k) = found-HasAccount us u rec range e in (rec, i, k, ground arith)
    ]

-- Whom the provider for Telegram names: the credentials are initial data that Telegram signed for
-- the bot, and the identity is that of a user of the file who lists the account with exactly the
-- number of the signed user, with this user's role. Let the JSON of a user give numbers of 64 bits.
pub telegram_provider-some :
    {W : Type 0} (c : Crypto) (bot_token : Text) (us : UserStore) (decode_user : Text → Option User)
    (now : ℕ) (w w' : W) (creds : Credentials) (id : Identity)
    → ((t : Text) (u : User) → decode_user t ≡ some u → InRange u.id)
    → (telegram_provider c bot_token us decode_user now).authenticate w creds ≡ (some id, w')
    → (init_data : Text) × (creds ≡ telegram_credentials init_data)
      × ((u : User) × IsSigned c bot_token decode_user now init_data u
          × ((rec : UserRecord) × In rec (get_all_users us)
              × HasAccount u rec
              × (id.user_id ≡ rec.id)
              × (id.role ≡ rec.role)))
unfolding telegram_provider telegram_authenticate
telegram_provider-some c bot_token us decode_user now w w' (telegram_credentials d) id range h =
    elim (Option-cases (validate_init_data c bot_token decode_user now d)) [
      | inl refused ↦ absurd (ground arith)
      | inr (u, valid) ↦
          let signed = (validate_init_data_iff c bot_token decode_user now d u).0 valid in
          let (rec, i, k, e) = telegram_user-some us u id (range _ u signed.5) (ground arith) in
          (d, refl, (u, signed, (rec, i, k, ap (λ x. x.user_id) e, ap (λ x. x.role) e)))
    ]
telegram_provider-some c bot_token us decode_user now w w' (api_key_credentials k) id range h =
    absurd (ground arith)
telegram_provider-some c bot_token us decode_user now w w' (magic_link_credentials t) id range h =
    absurd (ground arith)
