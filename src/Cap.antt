-- ===== src/Cap.antt =====
-- internal/cap/cap.go: the capability check that wrapped packages run, and its usage log. The two
-- package variables are a record; a map to `bool` is a list of its entries.
pub mod Decision
pub mod Audit
mod Tests
use vel.Common.{
  Bool, List, Option, Text, [], any, false, has_prefix, if◌then◌else◌, lit, none, some, ◌++◌, ◌==◌,
  ◌||◌, ◌∷◌,
}

pub record Config : Type 0 where
  pub mode : Text
  pub blacklist : List (Text × Bool)
  pub app_caps : List (Text × Bool)
  pub site_block : List (Text × Bool)
  pub site_allow : List (Text × Bool)

pub data Action : Type 0 where
  allowed denied bypassed : Action

pub record LogEntry : Type 0 where
  pub pkg : Text
  pub fn : Text
  pub action : Action

pub record State : Type 0 where
  pub config : Option Config
  pub usage_log : List LogEntry

-- The errors that wrap `ErrBlacklisted` and `ErrNotDeclared`, and `nil`.
pub data Verdict : Type 0 where
  pass : Verdict
  blacklisted : Text → Verdict
  not_declared : Text → Verdict

unfoldable pub init : State → Option Config → State
init s cfg = record s { config = cfg }

unfoldable pub get_config : State → Option Config
get_config s = s.config

unfoldable pub get_log : State → List LogEntry
get_log s = s.usage_log

unfoldable pub reset_log : State → State
reset_log s = record s { usage_log = [] }

unfoldable pub log_usage : State → Text → Text → Action → State
log_usage s pkg fn action = record s {
  usage_log = s.usage_log ++ record { pkg = pkg; fn = fn; action = action } ∷ [];
}

-- `m[key]`: false where the key is missing.
unfoldable pub lookup_flag : List (Text × Bool) → Text → Bool
lookup_flag [] key = false
lookup_flag ((k, v) ∷ m) key = if k == key then v else lookup_flag m key

-- `for cap := range m`: does one of the keys match the package?
unfoldable pub parent_listed : List (Text × Bool) → Text → Bool
parent_listed m pkg = any (λ e. has_prefix pkg (e.0 ++ lit "/") || has_prefix pkg e.0) m

-- What is logged, and the verdict.
unfoldable pub decide : Config → Text → Text → Action × Verdict
decide cfg pkg fn =
    let key = pkg ++ (lit "." ++ fn) in
    if lookup_flag cfg.blacklist key || lookup_flag cfg.site_block key
    then (denied, blacklisted key)
    else if lookup_flag cfg.app_caps pkg || lookup_flag cfg.site_allow pkg
    then (allowed, pass)
    else if parent_listed cfg.app_caps pkg
    then (allowed, pass)
    else if parent_listed cfg.site_allow pkg
    then (allowed, pass)
    else if cfg.mode == lit "bypass"
    then (bypassed, pass)
    else (denied, not_declared key)

-- Without a configuration every call passes, and nothing is logged.
unfoldable pub check : State → Text → Text → Verdict × State
check s pkg fn = elim s.config [
  | none ↦ (pass, s)
  | some cfg ↦ let d = decide cfg pkg fn in (d.1, log_usage s pkg fn d.0)
]
