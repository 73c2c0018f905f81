-- ===== src/Trace/Serve/Session/Kept.antt =====
-- What session the serve loop keeps behind a line.
use auto_waveform_debugger.Base.{
  ◌≡◌, false, ◌||◌, Option, none, some, List, [], ◌∷◌, Str, codes, Bool, str_eq, if◌then◌else◌,
}
use auto_waveform_debugger.Trace.Cli.{
  Parsed, ok, exit_success, error, WithDb, FindOptions, parse_find_args,
}
use auto_waveform_debugger.Trace.Serve.Session.{
  Session, Services, Opened, opened, failed, thrown, Reply, open_path, is_quit,
}

-- The session that is opened, or the one before where none is.
abbrev pub opened_or : Session → Opened → Session
opened_or s (opened t) = t
opened_or s (failed message) = s
opened_or s (thrown what) = s

abbrev pub open_or_stay : Services → Session → Option Str → Session
open_or_stay services s none = s
open_or_stay services s (some path) = opened_or s (services.open_session path)

abbrev pub find_or_stay : Services → Session → Parsed (WithDb FindOptions) → Session
find_or_stay services s (ok a) = (services.find a.opts s).0
find_or_stay services s exit_success = s
find_or_stay services s (error message) = s

-- The session behind a line that does not end it, from the words of the line.
unfoldable pub session_after : Services → Option (List Str) → Session → Session
session_after services none s = s
session_after services (some []) s = s
session_after services (some (cmd ∷ args)) s =
    if str_eq cmd (codes "reload")
    then opened_or s (services.open_session s.db_path)
    else if str_eq cmd (codes "open")
    then open_or_stay services s (open_path args none).0
    else if str_eq cmd (codes "trace")
    then (services.trace args s).0
    else if str_eq cmd (codes "find")
    then find_or_stay services s (parse_find_args services.compile args false none false)
    else s

-- The lines that end a session.
abbrev pub ends : Option (List Str) → Bool
ends none = false
ends (some []) = false
ends (some (cmd ∷ args)) = str_eq cmd (codes "close") || is_quit cmd

abbrev KeepsSession : Session → Reply → Type 0
KeepsSession s r = r.1 ≡ some s

-- The session behind one of the commands that need one.
abbrev query_leaves : Services → Str → List Str → Session → Session
query_leaves services cmd args s =
    if str_eq cmd (codes "trace")
    then (services.trace args s).0
    else if str_eq cmd (codes "find")
    then find_or_stay services s (parse_find_args services.compile args false none false)
    else s
