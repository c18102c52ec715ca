-- ===== src/Sources.antt =====
-- internal/datasource/datasource.go: the files that panels read their data from, polled in the
-- background. The lock of a source makes each read of its file one step. `valid` is `json.Valid`;
-- what the file system answers is an argument.
pub mod History
pub mod Registry
mod Tests
use vel.Common.{
  Bool, List, Option, Text, [], drop, eqb, false, has_prefix, if◌then◌else◌, lit, ltb, map, none,
  some, suc, true, zero, ℕ, ◌++◌, ◌==◌, ◌∷◌,
}
use vel.Auth.Types.{one_second}

-- One answer of `os.ReadFile` at the effective path; an error other than a missing file comes with
-- its text.
pub data Answer : Type 0 where
  content : Text → Answer
  not_found : Answer
  permission_denied : Text → Answer
  read_error : Text → Answer

-- `lastGood` and `staleSince` are 0 where Go has the zero time.
pub record FileSource : Type 0 where
  pub name : Text
  pub path : Text
  pub interval : ℕ
  pub app_name : Text
  pub app_dir : Text
  pub last_data : Text
  pub last_ok : Bool
  pub last_err : Text
  pub last_good : ℕ
  pub stale : Bool
  pub stale_since : ℕ

pub data Reading : Type 0 where
  good : Text → Reading
  failed : Text → Reading

abbrev pub error_text : Answer → Text
error_text (content d) = []
error_text not_found = lit "file not found"
error_text (permission_denied e) = e
error_text (read_error e) = e

-- The loop of `readFile`, with the attempts that are left: only invalid JSON is tried again. A list
-- of answers that ends too early stands for invalid JSON from then on.
unfoldable pub read_attempts : (Text → Bool) → ℕ → List Answer → Reading
read_attempts valid zero answers = failed (lit "invalid JSON")
read_attempts valid (suc n) [] = failed (lit "invalid JSON")
read_attempts valid (suc n) (content d ∷ answers) =
    let rest = read_attempts valid n answers in if valid d then good d else rest
read_attempts valid (suc n) (not_found ∷ answers) = failed (error_text not_found)
read_attempts valid (suc n) (permission_denied e ∷ answers) =
    failed (error_text (permission_denied e))
read_attempts valid (suc n) (read_error e ∷ answers) = failed (error_text (read_error e))

-- The end of `readFile`, at the time that it reads the clock.
unfoldable pub store_reading : FileSource → ℕ → Reading → FileSource
store_reading src now (good d) = record src {
  last_data = d;
  last_ok = true;
  last_err = [];
  last_good = now;
  stale = false;
  stale_since = 0;
}
store_reading src now (failed message) = record src {
  stale = true;
  stale_since = if src.stale then src.stale_since else now;
  last_ok = false;
  last_err = message;
}

unfoldable pub read_file : (Text → Bool) → FileSource → ℕ → List Answer → FileSource
read_file valid src now answers = store_reading src now (read_attempts valid 3 answers)

-- The result of `GetSourceState`. The interval is printed by the clients of the record.
pub record SourceState : Type 0 where
  pub path : Text
  pub interval : ℕ
  pub is_ok : Bool
  pub contents : Text
  pub error : Text
  pub stale : Bool
  pub stale_since : Option ℕ
  pub last_update : Option ℕ

unfoldable pub state_of : FileSource → SourceState
state_of src = record {
  path = src.path;
  interval = src.interval;
  is_ok = src.last_ok;
  contents = src.last_data;
  error = src.last_err;
  stale = src.stale;
  stale_since = if src.stale then some src.stale_since else none;
  last_update = if eqb src.last_good 0 then none else some src.last_good;
}

pub record SourceStatus : Type 0 where
  pub is_ok : Bool
  pub stale : Bool
  pub stale_since : Option ℕ

unfoldable pub status_of : FileSource → SourceStatus
status_of src = record {
  is_ok = src.last_ok;
  stale = src.stale;
  stale_since = if src.stale then some src.stale_since else none;
}

-- The map `sources`, from `appname:sourcename`.
abbrev pub Manager : Type 0
Manager = List (Text × FileSource)

unfoldable pub find_source : Manager → Text → Option FileSource
find_source [] key = none
find_source ((k, src) ∷ m) key = if k == key then some src else find_source m key

-- `home` is the answer of `os.UserHomeDir`.
unfoldable pub expand_tilde : Option Text → Text → Option Text
expand_tilde home path =
    if has_prefix path (lit "~")
    then elim home [ none ↦ none | some h ↦ some (h ++ drop 1 path) ]
    else some path

pub data AddError : Type 0 where
  interval_too_short no_home denied already_registered : AddError
  unreadable : Text → AddError

-- The permission check: a file that is not there yet is allowed.
unfoldable pub check_access : Answer → Option AddError
check_access (content d) = none
check_access not_found = none
check_access (permission_denied e) = some denied
check_access (read_error e) = some (unreadable e)

unfoldable pub source_key : Text → Text → Text
source_key app_name name = app_name ++ b':' ∷ name

unfoldable pub new_source : Text → Text → Text → Text → ℕ → FileSource
new_source app_name app_dir name expanded interval = record {
  name = name;
  path = expanded;
  interval = interval;
  app_name = app_name;
  app_dir = app_dir;
  last_data = [];
  last_ok = false;
  last_err = [];
  last_good = 0;
  stale = false;
  stale_since = 0;
}

-- The insertion under the lock.
unfoldable pub register : Manager → Text → FileSource → Option AddError × Manager
register m key src = elim (find_source m key) [
  | some old ↦ (some already_registered, m)
  | none ↦ (none, m ++ (key, src) ∷ [])
]

unfoldable pub add_file_source :
    Option Text → Answer → Manager → Text → Text → Text → Text → ℕ → Option AddError × Manager
add_file_source home answer m app_name app_dir name path interval =
    if ltb interval one_second
    then (some interval_too_short, m)
    else elim (expand_tilde home path) [
      | none ↦ (some no_home, m)
      | some expanded ↦ elim (check_access answer) [
        | some e ↦ (some e, m)
        | none ↦
            register m (source_key app_name name)
              (new_source app_name app_dir name expanded interval)
      ]
    ]

-- One tick of the poll of the source under a key.
unfoldable pub poll_source : (Text → Bool) → Manager → Text → ℕ → List Answer → Manager
poll_source valid [] key now answers = []
poll_source valid ((k, src) ∷ m) key now answers =
    let rest = poll_source valid m key now answers in
    if k == key then (k, read_file valid src now answers) ∷ m else (k, src) ∷ rest

unfoldable pub get_source_state : Manager → Text → Option SourceState
get_source_state m key = elim (find_source m key) [ none ↦ none | some src ↦ some (state_of src) ]

-- The data, the flag and why it is stale: since when, and the error.
unfoldable pub get_source_data : Manager → Text → Text × Bool × Option (ℕ × Text)
get_source_data m key = elim (find_source m key) [
  | none ↦ ([], false, none)
  | some src ↦
      (src.last_data, src.last_ok, if src.stale then some (src.stale_since, src.last_err) else none)
]

unfoldable pub get_all_data : Manager → List (Text × SourceState)
get_all_data m = map (λ (k, src). (k, state_of src)) m

unfoldable pub get_status : Manager → List (Text × SourceStatus)
get_status m = map (λ (k, src). (k, status_of src)) m
