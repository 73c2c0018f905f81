-- ===== src/Trace/Cli.antt =====
-- The arguments of the subcommands: ParseHierArgs (query/HierQuery.cc), ParseFindArgs
-- (query/FindQuery.cc), ParseWhereInstanceArgs (query/WhereIsQuery.cc), ParseOutputFormat
-- (db/GraphDb.cc). The four loops over the arguments are one function, which is given how a
-- subcommand reads one argument. A message on std::cerr is the text of the error.
pub mod RoundTrip
use auto_waveform_debugger.Base.{
  ℕ, Bool, true, false, not, ◌&&◌, ◌||◌, Option, none, some, List, [], ◌∷◌, ◌++◌, Str, codes,
  str_eq, is_empty, is_some, if◌then◌else◌,
}
use auto_waveform_debugger.Base.Text.{lowercase}
use auto_waveform_debugger.Trace.Number.{parse_unsigned_cli_value}
use auto_waveform_debugger.Trace.Hier.{OutputFormat, text, json, HierOptions}
use auto_waveform_debugger.Trace.Hier.Instance.{WhereInstanceOptions}

-- ParseStatus, with the options that are filled and the message that is written.
pub data Parsed {ℓ} (A : Type ℓ) : Type ℓ where
  ok : A → Parsed A
  exit_success : Parsed A
  error : Str → Parsed A

-- What one argument is: a flag, an option with a value behind it, or the end of the parse.
pub data Argument {ℓ} (A : Type ℓ) : Type ℓ where
  flag : A → Argument A
  option : (Str → Parsed A) → Argument A
  finish : Parsed A → Argument A

abbrev pub missing_value {ℓ} : {A : Type ℓ} → Str → Parsed A
missing_value arg = error (codes "Missing value for " ++ arg)

module _ {ℓ} {A : Type ℓ} (read : Str → A → Argument A) where
  unfoldable pub parse_args : List Str → A → Parsed A
  parse_args [] a = ok a
  parse_args (arg ∷ []) a = elim (read arg a) [
    | flag a' ↦ ok a'
    | option take_value ↦ missing_value arg
    | finish result ↦ result
  ]
  parse_args (arg ∷ value ∷ args) a = elim (read arg a) [
    | flag a' ↦ parse_args (value ∷ args) a'
    | option take_value ↦ elim (take_value value) [
      | ok a' ↦ parse_args args a'
      | exit_success ↦ exit_success
      | error message ↦ error message
    ]
    | finish result ↦ result
  ]

unfoldable pub parse_output_format : Str → Option OutputFormat
parse_output_format s =
    if str_eq (lowercase s) (codes "text")
    then some text
    else if str_eq (lowercase s) (codes "json")
    then some json
    else none

-- The options with the path of the database, which is given where `db_path` is not a null pointer.
pub record WithDb {ℓ} (A : Type ℓ) : Type ℓ where
  pub accepts_db : Bool
  pub db_path : Option Str
  pub opts : A

abbrev pub with_opts {ℓ} : {A : Type ℓ} → WithDb A → A → WithDb A
with_opts a opts = record a { opts = opts }

module _ {ℓ} {A : Type ℓ} where
  abbrev pub read_help : Str → Argument (WithDb A) → Argument (WithDb A)
  read_help arg other =
      if str_eq arg (codes "-h") || str_eq arg (codes "--help") then finish exit_success else other

  abbrev pub read_db : WithDb A → Argument (WithDb A)
  read_db a =
      if a.accepts_db
      then option (λ value. ok (record a { db_path = some value }))
      else finish (error (codes "--db is not accepted in this context"))

  abbrev pub read_text : (Str → A) → WithDb A → Argument (WithDb A)
  read_text put a = option (λ value. ok (with_opts a (put value)))

  abbrev pub put_number : Str → Str → (ℕ → A) → WithDb A → Option ℕ → Parsed (WithDb A)
  put_number name value put a none = error (codes "Invalid " ++ (name ++ (codes ": " ++ value)))
  put_number name value put a (some n) = ok (with_opts a (put n))

  abbrev pub read_number : Str → (ℕ → A) → WithDb A → Argument (WithDb A)
  read_number name put a =
      option (λ value. put_number name value put a (parse_unsigned_cli_value value))

  abbrev pub put_format : (OutputFormat → A) → WithDb A → Option OutputFormat → Parsed (WithDb A)
  put_format put a none = error (codes "Invalid --format (expected text|json)")
  put_format put a (some format) = ok (with_opts a (put format))

  abbrev pub read_format : (OutputFormat → A) → WithDb A → Argument (WithDb A)
  read_format put a = option (λ value. put_format put a (parse_output_format value))

abbrev pub unknown_option {ℓ} : {A : Type ℓ} → Str → Argument A
unknown_option arg = finish (error (codes "Unknown option: " ++ arg))

unfoldable pub read_hier : Str → WithDb HierOptions → Argument (WithDb HierOptions)
unfolding parse_unsigned_cli_value parse_output_format
read_hier arg a =
    let opts = a.opts in
    read_help arg (
      if str_eq arg (codes "--db")
      then read_db a
      else if str_eq arg (codes "--root")
      then read_text (λ value. record opts { root = value }) a
      else if str_eq arg (codes "--depth")
      then read_number arg (λ n. record opts { depth_limit = n }) a
      else if str_eq arg (codes "--max-nodes")
      then read_number arg (λ n. record opts { max_nodes = n }) a
      else if str_eq arg (codes "--format")
      then read_format (λ format. record opts { format = format }) a
      else if str_eq arg (codes "--show-source")
      then flag (with_opts a (record opts { show_source = true }))
      else unknown_option arg)

abbrev pub lacks_db {ℓ} : {A : Type ℓ} → Bool → WithDb A → Bool
lacks_db require_db a = require_db && not (a.accepts_db && is_some a.db_path)

abbrev pub default_hier_options : HierOptions
default_hier_options = record {
  root = [];
  depth_limit = 8;
  max_nodes = 5000;
  format = text;
  show_source = false;
}

-- A parse that ended well is checked once more.
abbrev pub check {ℓ} : {A : Type ℓ} → (A → Parsed A) → Parsed A → Parsed A
check f (ok a) = f a
check f exit_success = exit_success
check f (error message) = error message

-- `accepts_db` tells whether `db_path` is not null, which holds the value `db_path` before the call.
unfoldable pub parse_hier_args : List Str → Bool → Option Str → Bool → Parsed (WithDb HierOptions)
unfolding parse_args read_hier
parse_hier_args args accepts_db db_path require_db =
    check (λ a. if lacks_db require_db a then error (codes "Missing required args: --db") else ok a)
      (parse_args read_hier args
        (record { accepts_db = accepts_db; db_path = db_path; opts = default_hier_options }))

pub record FindOptions : Type 0 where
  pub query : Str
  pub regex_mode : Bool
  pub limit : ℕ
  pub format : OutputFormat

unfoldable pub read_find : Str → WithDb FindOptions → Argument (WithDb FindOptions)
unfolding parse_unsigned_cli_value parse_output_format
read_find arg a =
    let opts = a.opts in
    read_help arg (
      if str_eq arg (codes "--db")
      then read_db a
      else if str_eq arg (codes "--query")
      then read_text (λ value. record opts { query = value }) a
      else if str_eq arg (codes "--regex")
      then flag (with_opts a (record opts { regex_mode = true }))
      else if str_eq arg (codes "--limit")
      then read_number arg (λ n. record opts { limit = n }) a
      else if str_eq arg (codes "--format")
      then read_format (λ format. record opts { format = format }) a
      else unknown_option arg)

abbrev pub default_find_options : FindOptions
default_find_options = record { query = []; regex_mode = false; limit = 20; format = text }

abbrev pub missing_required : Bool → Str → Str
missing_required require_db name =
    codes "Missing required args: " ++ ((if require_db then codes "--db " else []) ++ name)

-- `compile` is the constructor of std::regex: it gives what() of the error if it throws one. The
-- result is the message that is written, if there is one.
abbrev pub compile_user_regex : (Str → Option Str) → Str → Str → Option Str
compile_user_regex compile name pattern = elim (compile pattern) [
  | none ↦ none
  | some what ↦ some (
      codes "Invalid regex for "
      ++ (name ++ (codes ": '" ++ (pattern ++ (codes "' (" ++ (what ++ codes ")"))))))
]

unfoldable pub parse_find_args :
    (Str → Option Str) → List Str → Bool → Option Str → Bool → Parsed (WithDb FindOptions)
unfolding parse_args read_find
parse_find_args compile args accepts_db db_path require_db =
    check
      (λ a.
        if lacks_db require_db a || is_empty a.opts.query
        then error (missing_required require_db (codes "--query"))
        else if a.opts.regex_mode
        then elim (compile_user_regex compile (codes "--query (--regex)") a.opts.query) [
          | none ↦ ok a
          | some message ↦ error message
        ]
        else ok a)
      (parse_args read_find args
        (record { accepts_db = accepts_db; db_path = db_path; opts = default_find_options }))

unfoldable pub read_where_instance :
    Str → WithDb WhereInstanceOptions → Argument (WithDb WhereInstanceOptions)
unfolding parse_output_format
read_where_instance arg a =
    let opts = a.opts in
    read_help arg (
      if str_eq arg (codes "--db")
      then read_db a
      else if str_eq arg (codes "--instance")
      then read_text (λ value. record opts { instance_path = value }) a
      else if str_eq arg (codes "--format")
      then read_format (λ format. record opts { format = format }) a
      else if str_eq arg (codes "--show-params")
      then flag (with_opts a (record opts { show_params = true }))
      else unknown_option arg)

abbrev pub default_where_instance_options : WhereInstanceOptions
default_where_instance_options = record { instance_path = []; format = text; show_params = false }

unfoldable pub parse_where_instance_args :
    List Str → Bool → Option Str → Bool → Parsed (WithDb WhereInstanceOptions)
unfolding parse_args read_where_instance
parse_where_instance_args args accepts_db db_path require_db =
    check
      (λ a.
        if lacks_db require_db a || is_empty a.opts.instance_path
        then error (missing_required require_db (codes "--instance"))
        else ok a)
      (parse_args read_where_instance args (record {
        accepts_db = accepts_db;
        db_path = db_path;
        opts = default_where_instance_options;
      }))
