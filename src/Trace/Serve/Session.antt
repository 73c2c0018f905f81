-- ===== src/Trace/Serve/Session.antt =====
-- RunServe of serve/ServeLoop.cc: the commands on the resident session, line after line.
-- What is written on std::cout and std::cerr is a list of outputs; `done` is the line <<END>> of
-- finish_response. The opening of a database, the file system and the subcommands trace and find
-- are given (Services); hier and whereis-instance are the functions of their modules.
pub mod Responses
pub mod Fresh
pub mod Kept
use auto_waveform_debugger.Base.{
  ℕ, Bool, true, false, not, ◌&&◌, ◌||◌, Option, none, some, List, [], ◌∷◌, ◌++◌, Str, codes,
  str_eq, is_empty, is_some, if◌then◌else◌, ◌==◌, length,
}
use auto_waveform_debugger.Base.Text.{starts_with}
use auto_waveform_debugger.Trace.Hier.{Hierarchy, HierOptions, HierReply, run_hier_with_session}
use auto_waveform_debugger.Trace.Hier.Instance.{
  WhereInstanceOptions, WhereInstanceReply, run_where_instance_with_session,
}
use auto_waveform_debugger.Trace.Cli.{
  Parsed, ok, exit_success, error, Argument, option, finish, unknown_option, parse_args, WithDb,
  FindOptions, parse_hier_args, parse_find_args, parse_where_instance_args,
}
use auto_waveform_debugger.Trace.Serve.Split.{split_command_line}

-- What the loop reads of a TraceSession. `mapping_bytes` is the size of the mapped file, if the
-- graph is mapped.
pub record Session : Type 0 where
  pub db_path : Str
  pub db_mtime : Str
  pub signals : ℕ
  pub hierarchy : Hierarchy
  pub load_refs : ℕ
  pub driver_refs : ℕ
  pub mapping_bytes : Option ℕ

pub data Opened : Type 0 where
  opened : Session → Opened
  failed : Str → Opened
  thrown : Str → Opened

-- The surroundings while one line is handled. `mapped_size` is st_size of fstat, none where that
-- fails or is negative. A subcommand leaves the session with what it has cached; it gives what it
-- writes, or none with what() of an exception.
pub record Services : Type 0 where
  pub open_session : Str → Opened
  pub mapped_size : Session → Option ℕ
  pub compile : Str → Option Str
  pub trace : List Str → Session → Session × (Option (List Str) × Str)
  pub find : FindOptions → Session → Session × (Option (List Str) × Str)

pub data Output : Type 0 where
  out : Str → Output
  err : Str → Output
  help : Str → Output
  status : Session → Output
  summary : Session → Output
  lines : List Str → Output
  hier : HierReply → Output
  instance_reply : WhereInstanceReply → Output
  done : Output

-- The outputs of a command, and the session behind it.
abbrev pub Reply : Type 0
Reply = List Output × Option Session

abbrev pub no_db : Output
no_db = out (codes "db: <none>")

abbrev pub internal_error : Str → Output
internal_error what = err (codes "Internal error while handling command: " ++ what)

-- open_db within the try block: an exception is reported, and leaves the session as it is.
abbrev pub open_result : Opened → Option Session → Reply
open_result (opened s) session = (summary s ∷ done ∷ [], some s)
open_result (failed message) session = (err message ∷ done ∷ [], session)
open_result (thrown what) session = (internal_error what ∷ done ∷ [], session)

unfoldable pub open_db : Services → Str → Option Session → Reply
open_db services path session = open_result (services.open_session path) session

-- The loop over the arguments of `open`: the path, or the message of what is wrong with them.
unfoldable pub open_path : List Str → Option Str → Option Str × List Output
open_path [] path = (path, [])
open_path (arg ∷ []) path =
    if str_eq arg (codes "--db")
    then (none, err (codes "Missing value for --db") ∷ [])
    else if starts_with (codes "--") arg
    then (none, err (codes "Unknown option: " ++ arg) ∷ [])
    else if is_some path
    then (none, err (codes "Unexpected extra argument: " ++ arg) ∷ [])
    else (some arg, [])
open_path (arg ∷ value ∷ args) path =
    let from_option = open_path args (some value) in
    let from_arg = open_path (value ∷ args) (some arg) in
    if str_eq arg (codes "--db")
    then from_option
    else if starts_with (codes "--") arg
    then (none, err (codes "Unknown option: " ++ arg) ∷ [])
    else if is_some path
    then (none, err (codes "Unexpected extra argument: " ++ arg) ∷ [])
    else from_arg

abbrev pub open_chosen : Services → List Str → Option Session → Option Str × List Output → Reply
open_chosen services args session (none, messages) = (
  messages ++ ((if is_empty args then err (codes "Missing DB path") ∷ [] else []) ++ done ∷ []),
  session,
)
open_chosen services args session (some path, messages) = open_db services path session

abbrev pub help_topic : List Str → Output
help_topic [] = help (codes "serve")
help_topic (topic ∷ args) =
    if str_eq topic (codes "trace")
      || (str_eq topic (codes "find")
          || (str_eq topic (codes "hier")
              || (str_eq topic (codes "whereis-instance") || str_eq topic (codes "serve"))))
    then help topic
    else err (codes "Unknown help topic: " ++ topic)

abbrev pub ran : Session × (Option (List Str) × Str) → Reply
ran (session, (some written, what)) = (lines written ∷ done ∷ [], some session)
ran (session, (none, what)) = (internal_error what ∷ done ∷ [], some session)

-- A subcommand whose arguments are parsed runs; for a call for help its text is written.
abbrev pub when_ok {ℓ} : {A : Type ℓ} → Str → Session → Parsed (WithDb A) → (A → Reply) → Reply
when_ok name session (ok a) run = run a.opts
when_ok name session exit_success run = (help name ∷ done ∷ [], some session)
when_ok name session (error message) run = (err message ∷ done ∷ [], some session)

-- The commands that need a session.
unfoldable pub query : Services → Str → List Str → Session → Reply
unfolding parse_find_args parse_hier_args parse_where_instance_args run_hier_with_session
    run_where_instance_with_session
query services cmd args session =
    if str_eq cmd (codes "trace")
    then ran (services.trace args session)
    else if str_eq cmd (codes "find")
    then when_ok cmd session (parse_find_args services.compile args false none false)
        (λ opts. ran (services.find opts session))
    else if str_eq cmd (codes "hier")
    then when_ok cmd session (parse_hier_args args false none false)
        (λ opts. (hier (run_hier_with_session session.hierarchy opts) ∷ done ∷ [], some session))
    else if str_eq cmd (codes "whereis-instance")
    then when_ok cmd session (parse_where_instance_args args false none false) (λ opts. (
      instance_reply (run_where_instance_with_session session.hierarchy opts) ∷ done ∷ [],
      some session,
    ))
    else (err (codes "Unknown command: " ++ cmd) ∷ done ∷ [], some session)

abbrev pub status_of : Option Session → Output
status_of none = no_db
status_of (some session) = status session

abbrev pub reload : Services → Option Session → Reply
reload services none = (err (codes "No DB is open") ∷ done ∷ [], none)
reload services (some session) = open_db services session.db_path (some session)

abbrev pub query_open : Services → Str → List Str → Option Session → Reply
query_open services cmd args none = (err (codes "No DB is open") ∷ done ∷ [], none)
query_open services cmd args (some session) = query services cmd args session

-- The commands behind the test of the mapped file.
unfoldable pub dispatch : Services → Str → List Str → Option Session → Reply
unfolding open_db open_path query
dispatch services cmd args session =
    if str_eq cmd (codes "help")
    then (help_topic args ∷ done ∷ [], session)
    else if str_eq cmd (codes "status")
    then (status_of session ∷ done ∷ [], session)
    else if str_eq cmd (codes "close")
    then (no_db ∷ done ∷ [], none)
    else if str_eq cmd (codes "reload")
    then reload services session
    else if str_eq cmd (codes "open")
    then open_chosen services args session (open_path args none)
    else query_open services cmd args session

-- The file that the session has mapped has another size.
abbrev pub size_changed : Option ℕ → Option ℕ → Bool
size_changed none size = false
size_changed (some bytes) none = true
size_changed (some bytes) (some size) = not (size == bytes)

abbrev pub is_stale : Services → Session → Bool
is_stale services session = size_changed session.mapping_bytes (services.mapped_size session)

abbrev pub changed_file : Str → Output
changed_file path =
    err (codes "Failed to read DB: " ++ (path ++ codes " (mapped file size changed)"))

unfoldable pub check_mapping : Services → Str → List Str → Option Session → Reply
unfolding dispatch
check_mapping services cmd args none = dispatch services cmd args none
check_mapping services cmd args (some session) =
    if not (str_eq cmd (codes "reload") || str_eq cmd (codes "open")) && is_stale services session
    then (changed_file session.db_path ∷ done ∷ [], none)
    else dispatch services cmd args (some session)

abbrev pub is_quit : Str → Bool
is_quit cmd = str_eq cmd (codes "quit") || str_eq cmd (codes "exit")

-- One line: the outputs, the session, and whether the loop goes on.
abbrev pub handle_words : Services → Option (List Str) → Option Session → Reply × Bool
handle_words services none session =
    ((err (codes "Command parse error: unterminated escape or quote") ∷ done ∷ [], session), true)
handle_words services (some []) session = ((done ∷ [], session), true)
handle_words services (some (cmd ∷ args)) session =
    if starts_with (codes "#") cmd
    then ((done ∷ [], session), true)
    else if is_quit cmd
    then ((out (codes "bye") ∷ done ∷ [], session), false)
    else (check_mapping services cmd args session, true)

unfoldable pub handle_line : Services → Str → Option Session → Reply × Bool
unfolding split_command_line check_mapping
handle_line services line session = handle_words services (split_command_line line) session

-- The loop over the lines of std::cin, each with the surroundings that it meets.
unfoldable pub serve_lines : List (Services × Str) → Option Session → List Output
unfolding handle_line
serve_lines [] session = []
serve_lines ((services, line) ∷ input) session =
    let ((outputs, session'), goes_on) = handle_line services line session in
    let rest = serve_lines input session' in if goes_on then outputs ++ rest else outputs

-- RunServe once its own arguments are read. An exception at the start is not caught.
unfoldable pub run_serve : Services → Option Str → List (Services × Str) → Option (List Output)
unfolding serve_lines
run_serve services none input = some (no_db ∷ done ∷ serve_lines input none)
run_serve services (some path) input = elim (services.open_session path) [
  | opened s ↦ some (summary s ∷ done ∷ serve_lines input (some s))
  | failed message ↦ some (err message ∷ done ∷ serve_lines input none)
  | thrown what ↦ none
]

-- The arguments of RunServe: the database to open at the start.
unfoldable pub read_serve : Str → Option Str → Argument (Option Str)
read_serve arg startup_db =
    if str_eq arg (codes "-h") || str_eq arg (codes "--help")
    then finish exit_success
    else if str_eq arg (codes "--db")
    then option (λ value. ok (some value))
    else unknown_option arg

unfoldable pub parse_serve_args : List Str → Parsed (Option Str)
unfolding parse_args read_serve
parse_serve_args args = parse_args read_serve args none
