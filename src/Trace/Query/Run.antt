-- ===== src/Trace/Query/Run.antt =====
-- RunTraceWithSession of query/TraceQuery.cc up to the printing of the result. The traversal is
-- given, as a function of the options.
pub mod Answered
use mathlib.Core.Option
use auto_waveform_debugger.Base.{
  ℕ, zero, suc, Bool, Option, none, some, List, [], ◌∷◌, Str, is_some, get_elem?, if◌then◌else◌,
}
use auto_waveform_debugger.Trace.Endpoint.{EndpointRecord}
use auto_waveform_debugger.Trace.Find.{Machine, top_suggestions}
use auto_waveform_debugger.Trace.Query.{DeclaredAxis, SignalCoordinates, TraceOptions}
use auto_waveform_debugger.Trace.Query.Resolve.{lookup_signal_id, resolve_options}
use auto_waveform_debugger.Trace.Query.Coordinates.{find_coordinates}
use auto_waveform_debugger.Trace.Query.Selects.{SignalView, Checked, accepted, refused, check_query}

-- GraphSignalRecord, where the parent is given only for a member of a struct, and the endpoints.
pub record SignalRow : Type 0 where
  pub parent_signal_id : Option ℕ
  pub member_bit_offset : ℕ
  pub member_bit_width : ℕ
  pub drivers : List EndpointRecord
  pub loads : List EndpointRecord

pub record TraceSession : Type 0 where
  pub names : List Str
  pub signals : List SignalRow
  pub format_version : ℕ
  pub member_declared_axes_verified : Bool
  pub coordinate_rows : List SignalCoordinates
  pub declared_axes : List DeclaredAxis
  -- whether a signal is in global_nets or in global_sink_to_source
  pub is_global : Str → Bool

abbrev pub no_row : SignalRow
no_row = record {
  parent_signal_id = none;
  member_bit_offset = 0;
  member_bit_width = 0;
  drivers = [];
  loads = [];
}

-- ReadSignals()[id]; there is a row for each name.
abbrev pub row_of : TraceSession → ℕ → SignalRow
row_of session id = elim (get_elem? session.signals id) [ none ↦ no_row | some row ↦ row ]

abbrev pub view_with : TraceSession → Str → ℕ → Option SignalCoordinates → SignalView
view_with session root id coordinates =
    let row = row_of session id in
    record {
      format_version = session.format_version;
      member_declared_axes_verified = session.member_declared_axes_verified;
      is_member = is_some row.parent_signal_id;
      member_bit_offset = row.member_bit_offset;
      member_bit_width = row.member_bit_width;
      coordinates = coordinates;
      axes_of_db = session.declared_axes;
      drivers = row.drivers;
      loads = row.loads;
      is_global = session.is_global root;
    }

-- None where the search for the coordinates does not end.
unfoldable pub view_of : TraceSession → Str → ℕ → Option SignalView
unfolding find_coordinates
view_of session root id =
    Option.map (view_with session root id) (find_coordinates session.coordinate_rows id)

pub data TraceReply (A : Type 0) : Type 0 where
  invalid_syntax : Str → TraceReply A
  not_found : Str → Option (List Str) → TraceReply A
  not_supported : TraceOptions → TraceReply A
  answered : TraceOptions → A → TraceReply A

abbrev pub trace_status : {A : Type 0} → TraceReply A → ℕ
trace_status (invalid_syntax signal) = 1
trace_status (not_found root suggestions) = 2
trace_status (not_supported opts) = 1
trace_status (answered opts result) = 0

module _ {A : Type 0} (machine : Machine) (traverse : TraceSession → TraceOptions → A)
    (session : TraceSession) where
  abbrev pub run_checked : Checked → TraceReply A
  run_checked (refused opts) = not_supported opts
  run_checked (accepted opts) = answered opts (traverse session opts)

  abbrev pub run_viewed : TraceOptions → Option SignalView → Option (TraceReply A)
  run_viewed opts none = none
  run_viewed opts (some view) = some (run_checked (check_query view opts))

  abbrev pub run_found : TraceOptions → Option ℕ → Option (TraceReply A)
  run_found opts none =
      some (not_found opts.root_signal (top_suggestions machine session.names opts.root_signal 5))
  run_found opts (some id) = run_viewed opts (view_of session opts.root_signal id)

  abbrev pub run_resolved : Str → Option TraceOptions → Option (TraceReply A)
  run_resolved signal none = some (invalid_syntax signal)
  run_resolved signal (some opts) = run_found opts (lookup_signal_id session.names opts.root_signal)

  -- None where the search for the coordinates does not end.
  unfoldable pub run_trace_with_session : TraceOptions → Option (TraceReply A)
  run_trace_with_session parsed = run_resolved parsed.signal (resolve_options session.names parsed)
