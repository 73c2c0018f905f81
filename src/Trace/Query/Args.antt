-- ===== src/Trace/Query/Args.antt =====
-- ParseTraceArgs of query/TraceQuery.cc.
pub mod Valid
use auto_waveform_debugger.Base.{
  ℕ, zero, suc, ◌-◌, ◌^◌, Bool, true, false, not, ◌&&◌, ◌||◌, Option, none, some, List, [], ◌∷◌,
  ◌++◌, Str, codes, str_eq, is_empty, if◌then◌else◌, ltb, leb, ◌==◌,
}
use auto_waveform_debugger.Base.Scan.{drop_spaces}
use auto_waveform_debugger.Trace.Hier.{OutputFormat, text}
use auto_waveform_debugger.Trace.Number.Integer.{ℤ, pos, negsuc}
use auto_waveform_debugger.Trace.Select.{Axis, digits_value, parse_signal_query}
use auto_waveform_debugger.Trace.Cli.{
  Parsed, ok, exit_success, error, Argument, flag, option, finish, parse_args, WithDb, with_opts,
  read_help, read_db, read_text, read_number, read_format, unknown_option, lacks_db, check,
  compile_user_regex,
}
use auto_waveform_debugger.Trace.Query.{TraceOptions}

abbrev pub default_trace_options : TraceOptions
default_trace_options = record {
  mode = [];
  signal = [];
  root_signal = [];
  signal_select = none;
  signal_select_axes = [];
  cone_level = 1;
  prefer_port_hop = false;
  depth_limit = 8;
  max_nodes = 5000;
  include_re = none;
  exclude_re = none;
  stop_at_re = none;
  format = text;
  coordinate_encoding = codes "flat_bits";
  declared_axes = [];
  diagnostics = [];
}

abbrev pub to_int64 : Bool → Option ℕ → Option ℤ
to_int64 negative none = none
to_int64 false (some n) = if ltb n (2 ^ 63) then some (pos n) else none
to_int64 true (some zero) = some (pos zero)
to_int64 true (some (suc n)) = if ltb n (2 ^ 63) then some (negsuc n) else none

abbrev pub signed_text : Str → Option ℤ
signed_text [] = none
signed_text (c ∷ s) =
    if c == b'-'
    then to_int64 true (digits_value s)
    else to_int64 false (digits_value (if c == b'+' then s else c ∷ s))

-- std::stoll of a text that it reads to its end.
unfoldable pub stoll_text : Str → Option ℤ
stoll_text value = signed_text (drop_spaces value)

abbrev pub TraceParse : Type 0
TraceParse = Parsed (WithDb TraceOptions)

abbrev pub put_cone_level : Str → WithDb TraceOptions → Option ℤ → TraceParse
put_cone_level value a none = error (codes "Invalid --cone-level: " ++ value)
put_cone_level value a (some (pos zero)) = error (codes "--cone-level must be >= 1")
put_cone_level value a (some (negsuc n)) = error (codes "--cone-level must be >= 1")
put_cone_level value a (some (pos (suc n))) =
    let opts = a.opts in ok (with_opts a (record opts { cone_level = suc n }))

-- A pattern that std::regex refuses is an error.
abbrev pub read_regex :
    (Str → Option Str)
    → Str
    → (Option Str → TraceOptions)
    → WithDb TraceOptions
    → Argument (WithDb TraceOptions)
read_regex compile name put a = option (λ value. elim (compile_user_regex compile name value) [
  | none ↦ ok (with_opts a (put (some value)))
  | some message ↦ error message
])

-- The body of the loop over the arguments.
unfoldable pub read_trace :
    (Str → Option Str) → Str → WithDb TraceOptions → Argument (WithDb TraceOptions)
unfolding stoll_text
read_trace compile arg a =
    let opts = a.opts in
    read_help arg (
      if str_eq arg (codes "--db")
      then read_db a
      else if str_eq arg (codes "--mode")
      then read_text (λ value. record opts { mode = value }) a
      else if str_eq arg (codes "--signal")
      then read_text (λ value. record opts { signal = value }) a
      else if str_eq arg (codes "--depth")
      then read_number arg (λ n. record opts { depth_limit = n }) a
      else if str_eq arg (codes "--cone-level")
      then option (λ value. put_cone_level value a (stoll_text value))
      else if str_eq arg (codes "--max-nodes")
      then read_number arg (λ n. record opts { max_nodes = n }) a
      else if str_eq arg (codes "--prefer-port-hop")
      then flag (with_opts a (record opts { prefer_port_hop = true }))
      else if str_eq arg (codes "--include")
      then read_regex compile arg (λ re. record opts { include_re = re }) a
      else if str_eq arg (codes "--exclude")
      then read_regex compile arg (λ re. record opts { exclude_re = re }) a
      else if str_eq arg (codes "--stop-at")
      then read_regex compile arg (λ re. record opts { stop_at_re = re }) a
      else if str_eq arg (codes "--format")
      then read_format (λ format. record opts { format = format }) a
      else unknown_option arg)

abbrev pub only_axis : List Axis → Option Axis
only_axis [] = none
only_axis (axis ∷ []) = some axis
only_axis (axis ∷ other ∷ axes) = none

-- The signal is split into a name and selects; where it cannot be, it is a name as it stands.
abbrev pub with_query : TraceOptions → Option (Str × List Axis) → TraceOptions
with_query opts none = record opts {
  root_signal = opts.signal;
  signal_select_axes = [];
  signal_select = none;
}
with_query opts (some (root, axes)) = record opts {
  root_signal = root;
  signal_select_axes = axes;
  signal_select = only_axis axes;
}

unfoldable pub check_trace : Bool → WithDb TraceOptions → TraceParse
check_trace require_db a =
    let opts = a.opts in
    if lacks_db require_db a || (is_empty opts.mode || is_empty opts.signal)
    then error (
        codes "Missing required args: "
        ++ ((if require_db then codes "--db " else []) ++ codes "--mode --signal"))
    else if not (str_eq opts.mode (codes "drivers")) && not (str_eq opts.mode (codes "loads"))
    then error (codes "Invalid --mode: " ++ (opts.mode ++ codes " (expected drivers|loads)"))
    else ok (with_opts a (with_query opts (parse_signal_query opts.signal)))

unfoldable pub parse_trace_args :
    (Str → Option Str) → List Str → Bool → Option Str → Bool → TraceParse
parse_trace_args compile args accepts_db db_path require_db = check (check_trace require_db) (
    parse_args (read_trace compile) args
      (record { accepts_db = accepts_db; db_path = db_path; opts = default_trace_options }))
