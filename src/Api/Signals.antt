-- ===== src/Api/Signals.antt =====
-- list_signals, list_signals_page and get_signal_info of AgentAPI.cpp. A std::set is the list of its
-- elements, of which only membership is asked.
pub mod Listed
use auto_waveform_debugger.Base.{
  ℕ, Bool, true, false, not, ◌&&◌, ◌||◌, Option, none, some, List, [], ◌∷◌, ◌++◌, Str, codes,
  str_eq, is_empty, drop, ◌==◌, if◌then◌else◌,
}
use auto_waveform_debugger.Base.Text.{has_char, starts_with, lowercase}
use auto_waveform_debugger.Wave.Signal.{SignalInfo}
use auto_waveform_debugger.Wave.Database.{
  WaveDatabase, BackendKind, no_backend, vcd, fst, fsdb, M, ◌>>=◌, pure, gets, get_signal_info,
  member,
}
use auto_waveform_debugger.Wave.Database.Paths.{sort_paths, Page, list_signal_paths_page}
use auto_waveform_debugger.Api.Reply.{
  Reply, success, error, with_signal, unsupported_type, invalid_pattern, only_for_fsdb,
}

-- std::regex of a text, `none` where it throws std::regex_error; and std::regex_match.
pub record Regexes : Type 0 where
  pub compile : Str → Option (Str → Bool)

abbrev is_special : ℕ → Bool
is_special c =
    c == b'.'
    || (c == b'^'
        || (c == b'$'
            || (c == b'|'
                || (c == b'('
                    || (c == b')'
                        || (c == b'['
                            || (c == b']'
                                || (c == b'{' || (c == b'}' || (c == b'+' || c == 92))))))))))

abbrev regex_of_char : ℕ → Str
regex_of_char c =
    if c == b'*'
    then codes ".*"
    else if c == b'?'
    then codes "."
    else if is_special c
    then 92 ∷ c ∷ []
    else c ∷ []

unfoldable pub regex_of_chars : Str → Str
regex_of_chars [] = codes "$"
regex_of_chars (c ∷ pattern) = regex_of_char c ++ regex_of_chars pattern

unfoldable pub glob_to_regex : Str → Str
unfolding regex_of_chars
glob_to_regex pattern = b'^' ∷ regex_of_chars pattern

-- At most one dot.
unfoldable pub is_top_module_signal_path : Str → Bool
is_top_module_signal_path [] = true
is_top_module_signal_path (c ∷ path) =
    let rest = is_top_module_signal_path path in
    if c == b'.' then not (has_char b'.' path) else rest

abbrev net_types : List Str
net_types =
    codes "wire"
    ∷ codes "net"
    ∷ codes "tri"
    ∷ codes "tri0"
    ∷ codes "tri1"
    ∷ codes "wand"
    ∷ codes "wor"
    ∷ codes "supply0"
    ∷ codes "supply1"
    ∷ []

-- The cases that return `lowered` itself are one.
unfoldable pub canonical_signal_type : Str → Str
unfolding member
canonical_signal_type raw_type =
    let lowered = lowercase raw_type in
    if str_eq lowered (codes "reg") || str_eq lowered (codes "register")
    then codes "register"
    else if member lowered net_types
    then codes "net"
    else lowered

unfoldable pub signal_matches_types : SignalInfo → List Str → Bool
unfolding canonical_signal_type
signal_matches_types info allowed_types =
    is_empty allowed_types || member (canonical_signal_type info.type) allowed_types

abbrev pub supported_types : List Str
supported_types =
    codes "input" ∷ codes "output" ∷ codes "inout" ∷ codes "net" ∷ codes "register" ∷ []

unfoldable pub build_signal_type_filter : List Str → List Str → Reply (List Str)
build_signal_type_filter [] allowed_types = success allowed_types
build_signal_type_filter (raw_type ∷ requested_types) allowed_types =
    let canonical = canonical_signal_type raw_type in
    let rest = build_signal_type_filter requested_types (canonical ∷ allowed_types) in
    if member canonical supported_types then rest else error (unsupported_type raw_type)

abbrev matcher_of : Option (Str → Bool) → Reply (Option (Str → Bool))
matcher_of none = error invalid_pattern
matcher_of (some matcher) = success (some matcher)

-- No matcher for a pattern that lets all paths through.
unfoldable pub build_path_matcher : Regexes → Str → Reply (Option (Str → Bool))
unfolding glob_to_regex
build_path_matcher regexes pattern =
    if is_empty pattern || str_eq pattern (codes "*")
    then success none
    else if starts_with (codes "regex:") pattern
    then matcher_of (regexes.compile (drop 6 pattern))
    else matcher_of (regexes.compile (glob_to_regex pattern))

abbrev pub path_matches : Option (Str → Bool) → Str → Bool
path_matches none path = true
path_matches (some matcher) path = matcher path

-- A signal that no `continue` of the loop passes over.
unfoldable pub is_listed : Bool → Option (Str → Bool) → List Str → SignalInfo → Bool
unfolding is_top_module_signal_path signal_matches_types
is_listed top_only matcher allowed_types info =
    if top_only && not (is_top_module_signal_path info.path)
    then false
    else if not (path_matches matcher info.path)
    then false
    else signal_matches_types info allowed_types

unfoldable pub listed_paths : (SignalInfo → Bool) → List (Str × SignalInfo) → List Str
listed_paths listed [] = []
listed_paths listed ((path, info) ∷ entries) =
    let signals = listed_paths listed entries in
    if listed info then info.path ∷ signals else signals

unfoldable pub list_signals : Regexes → Str → List Str → M (Reply (List Str))
unfolding build_signal_type_filter build_path_matcher is_listed listed_paths
list_signals regexes pattern types = elim (build_signal_type_filter types []) [
  | error message ↦ pure (error message)
  | success allowed_types ↦ elim (build_path_matcher regexes pattern) [
    | error message ↦ pure (error message)
    | success matcher ↦ gets λ db. success (
        sort_paths
          (listed_paths (is_listed (is_empty pattern) matcher allowed_types) db.signal_info))
  ]
]

abbrev pub is_fsdb : BackendKind → Bool
is_fsdb no_backend = false
is_fsdb vcd = false
is_fsdb fst = false
is_fsdb fsdb = true

unfoldable pub list_signals_page : Str → Str → ℕ → M (Reply Page)
list_signals_page prefix cursor limit = do
  is_fsdb_backend ← gets (λ db. is_fsdb db.backend_kind)
  if is_fsdb_backend
      then (do page ← list_signal_paths_page prefix cursor limit; pure (success page))
      else pure (error only_for_fsdb)

pub record SignalReply : Type 0 where
  pub info : SignalInfo
  pub timescale : Str

unfoldable pub describe_signal : Str → M (Reply SignalReply)
describe_signal path = with_signal path do
  info ← get_signal_info path
  timescale ← gets (λ db. db.timescale)
  pure (success (record { info = info; timescale = timescale }))
