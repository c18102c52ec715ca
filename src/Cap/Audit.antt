-- ===== src/Cap/Audit.antt =====
-- The usage log: every check leaves one entry behind, which tells its verdict.
use vel.Common.{List, Text, [], ap, arith, map, some, sym, ◌++◌, ◌↔◌, ◌∙◌, ◌∷◌, ◌≡◌, ◌≢◌}
use mathlib.Core.List.{append_assoc, append-nil}
use vel.Cap.{
  Config, LogEntry, State, Verdict, check, decide, denied, get_log, log_usage, pass, reset_log,
}

-- A run of checks, one after the other.
unfoldable pub check_all : State → List (Text × Text) → List Verdict × State
check_all s [] = ([], s)
check_all s ((pkg, fn) ∷ calls) =
    let (verdict, s') = check s pkg fn in
    let (verdicts, s'') = check_all s' calls in (verdict ∷ verdicts, s'')

-- What the log says of a call, under a configuration.
abbrev pub entry_of : Config → Text × Text → LogEntry
entry_of cfg (pkg, fn) = record { pkg = pkg; fn = fn; action = (decide cfg pkg fn).0 }

check_config : (s : State) (pkg fn : Text) → (check s pkg fn).1.config ≡ s.config
unfolding check log_usage
check_config s pkg fn = ground arith

check_log :
    (s : State) (cfg : Config) (pkg fn : Text)
    → s.config ≡ some cfg
    → (check s pkg fn).1.usage_log ≡ s.usage_log ++ entry_of cfg (pkg, fn) ∷ []
unfolding check log_usage
check_log s cfg pkg fn h = ground arith

-- A refused call is logged as denied, and only those are.
denied_iff :
    (cfg : Config) (pkg fn : Text)
    → ((decide cfg pkg fn).0 ≡ denied) ↔ ((decide cfg pkg fn).1 ≢ pass)
unfolding decide
denied_iff cfg pkg fn = ground arith

log-check_all :
    (calls : List (Text × Text)) (s : State) (cfg : Config)
    → s.config ≡ some cfg
    → (check_all s calls).1.usage_log ≡ s.usage_log ++ map (entry_of cfg) calls
unfolding check_all
log-check_all [] s cfg h = sym (append-nil s.usage_log)
log-check_all ((pkg, fn) ∷ calls) s cfg h =
    log-check_all calls (check s pkg fn).1 cfg (check_config s pkg fn ∙ h)
    ∙ ap (λ l. l ++ map (entry_of cfg) calls) (check_log s cfg pkg fn h)
    ∙ append_assoc s.usage_log (entry_of cfg (pkg, fn) ∷ []) (map (entry_of cfg) calls)

-- After ResetLog and any run of checks under a configuration, GetLog gives one entry for each call,
-- in the order of the calls, and an entry says denied exactly where its call was refused.
get_log-check_all :
    (s : State) (cfg : Config) (calls : List (Text × Text)) (pkg fn : Text)
    → s.config ≡ some cfg
    → (get_log (check_all (reset_log s) calls).1 ≡ map (entry_of cfg) calls)
      × (((entry_of cfg (pkg, fn)).action ≡ denied) ↔ ((decide cfg pkg fn).1 ≢ pass))
unfolding get_log reset_log
get_log-check_all s cfg calls pkg fn h =
    (log-check_all calls (reset_log s) cfg h, denied_iff cfg pkg fn)
