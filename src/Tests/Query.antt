-- ===== src/Tests/Query.antt =====
-- Runs of the trace query up to its traversal.
use auto_waveform_debugger.Base.{
  ℕ, zero, suc, ◌≡◌, refl, true, false, Option, none, some, List, [], ◌∷◌, ◌++◌, Str, codes,
  is_some, length, arith,
}
use auto_waveform_debugger.Base.Scan.{leading_digits}
use auto_waveform_debugger.Trace.Number.{to_string}
use auto_waveform_debugger.Trace.Number.Integer.{pos, negsuc}
use auto_waveform_debugger.Trace.Select.{parse_signal_query}
use auto_waveform_debugger.Trace.Select.RoundTrip.{write_axes}
use auto_waveform_debugger.Trace.Cli.{ok, error, WithDb, parse_args}
use auto_waveform_debugger.Trace.Query.{DeclaredAxis, SignalCoordinates, TraceOptions}
use auto_waveform_debugger.Trace.Query.Args.{
  default_trace_options, parse_trace_args, read_trace, check_trace,
}
use auto_waveform_debugger.Trace.Query.Args.Valid.{IsUsable, parse_trace_args-IsUsable}
use auto_waveform_debugger.Trace.Query.Resolve.{lookup_signal_id, resolve_signal_query}
use auto_waveform_debugger.Trace.Query.Resolve.RoundTrip.{resolve_signal_query-write}
use auto_waveform_debugger.Trace.Query.Coordinates.{
  AreInOrder, find_coordinates, search_rows, first_row_of, find_coordinates_lem,
}
use auto_waveform_debugger.Trace.Query.Rewrite.{rewrite_axes, flat_rewrite}
use auto_waveform_debugger.Trace.Query.Rewrite.Address.{AreIndexes, address, rewrite_axes-address}
use auto_waveform_debugger.Trace.Query.Selects.{check_selects, check_declared, check_bounds}
use auto_waveform_debugger.Trace.Find.{Machine}
use auto_waveform_debugger.Trace.Query.Run.{TraceSession, view_with, view_of}

abbrev any_pattern : Str → Option Str
any_pattern pattern = none

abbrev trace_args : List Str
trace_args =
    codes "--mode"
    ∷ codes "loads"
    ∷ codes "--cone-level"
    ∷ codes "2"
    ∷ codes "--signal"
    ∷ codes "top.bus[3:0]"
    ∷ codes "--include"
    ∷ codes "clk"
    ∷ []

abbrev trace_options : TraceOptions
trace_options = record default_trace_options {
  mode = codes "loads";
  signal = codes "top.bus[3:0]";
  root_signal = codes "top.bus";
  signal_select = some (pos 3, pos 0);
  signal_select_axes = (pos 3, pos 0) ∷ [];
  cone_level = 2;
  include_re = some (codes "clk");
}

abbrev parsed_options : WithDb TraceOptions
parsed_options = record { accepts_db = false; db_path = none; opts = trace_options }

trace_args_run : parse_trace_args any_pattern trace_args false none false ≡ ok parsed_options
unfolding parse_trace_args parse_args read_trace check_trace parse_signal_query
trace_args_run = refl

cone_run :
    parse_trace_args any_pattern (codes "--cone-level" ∷ codes "-3" ∷ []) false none false
    ≡ error (codes "--cone-level must be >= 1")
unfolding parse_trace_args parse_args read_trace leading_digits
cone_run = refl

parse_trace_args-IsUsable_example : IsUsable any_pattern false parsed_options
parse_trace_args-IsUsable_example =
    parse_trace_args-IsUsable any_pattern trace_args false none false parsed_options trace_args_run

-- A name that holds a bracket.
abbrev stored : List Str
stored = codes "top.a" ∷ codes "top.m[1].q" ∷ []

not_stored : (t : Str) → is_some (lookup_signal_id stored (codes "top.m[1].q" ++ b'[' ∷ t)) ≡ false
unfolding lookup_signal_id
not_stored t = refl

is_stored : is_some (lookup_signal_id stored (codes "top.m[1].q")) ≡ true
unfolding lookup_signal_id
is_stored = refl

resolve_signal_query-write_example :
    resolve_signal_query stored
      (codes "top.m[1].q" ++ write_axes ((pos 7, pos 0) ∷ (negsuc 0, negsuc 0) ∷ []))
    ≡ some (codes "top.m[1].q", (pos 7, pos 0) ∷ (negsuc 0, negsuc 0) ∷ [])
resolve_signal_query-write_example =
    resolve_signal_query-write stored (codes "top.m[1].q") (pos 7, pos 0)
      ((negsuc 0, negsuc 0) ∷ []) is_stored not_stored (omega arith)

abbrev row : ℕ → SignalCoordinates
row id = record { signal_id = id; axis_begin = 0; axis_count = 2; flags = 0 }

abbrev rows : List SignalCoordinates
rows = row 2 ∷ row 5 ∷ []

rows-AreInOrder : AreInOrder rows
rows-AreInOrder zero zero l m = omega arith
rows-AreInOrder zero (suc zero) l m = omega arith
rows-AreInOrder zero (suc (suc j)) l m = absurd (omega arith)
rows-AreInOrder (suc i) zero l m = absurd (omega arith)
rows-AreInOrder (suc zero) (suc zero) l m = omega arith
rows-AreInOrder (suc (suc i)) (suc zero) l m = absurd (omega arith)
rows-AreInOrder (suc i) (suc (suc j)) l m = absurd (omega arith)

find_coordinates_lem_example : find_coordinates rows 5 ≡ some (first_row_of rows 5)
find_coordinates_lem_example = find_coordinates_lem rows 5 rows-AreInOrder

abbrev two_axes : List DeclaredAxis
two_axes =
    record { left = pos 3; right = pos 0; flags = 3 }
    ∷ record { left = pos 0; right = pos 7; flags = 3 }
    ∷ []

-- The bit 10 is in the second row from the right, two from its right end.
rewrite_run : rewrite_axes two_axes 10 ≡ some (pos 1 ∷ pos 5 ∷ [], 0)
unfolding rewrite_axes
rewrite_run = refl

rewrite_axes-address_example :
    AreIndexes two_axes (pos 1 ∷ pos 5 ∷ []) × (address two_axes (pos 1 ∷ pos 5 ∷ []) ≡ 10)
rewrite_axes-address_example = rewrite_axes-address two_axes 10 (pos 1 ∷ pos 5 ∷ []) rewrite_run

abbrev session : TraceSession
session = record {
  names = codes "top.a" ∷ codes "top.bus" ∷ [];
  signals =
      (record {
        parent_signal_id = none;
        member_bit_offset = 0;
        member_bit_width = 0;
        drivers = [];
        loads = [];
      })
      ∷ [];
  format_version = 6;
  member_declared_axes_verified = true;
  coordinate_rows = row 1 ∷ [];
  declared_axes = two_axes;
  is_global = λ name. false;
}

abbrev asked : TraceOptions
asked = record trace_options { signal = codes "top.bus[2:1][0:7]" }

abbrev answering : TraceOptions
answering = record asked {
  signal_select = none;
  signal_select_axes = (pos 2, pos 1) ∷ (pos 0, pos 7) ∷ [];
  coordinate_encoding = codes "declared_axes";
  declared_axes = two_axes;
}

abbrev one_machine : Machine
one_machine = record { hardware = 1; schedule = [] }

-- The traversal is given: here it counts the selects.
abbrev count_selects : TraceSession → TraceOptions → ℕ
count_selects s opts = length opts.signal_select_axes

-- A row outside its axis.
outside_run :
    check_selects
      (codes "top.bus")
      (view_with session (codes "top.bus") 1 (some (row 1)))
      ((pos 4, pos 4) ∷ (pos 0, pos 0) ∷ [])
    ≡ some (
      codes "axis_out_of_bounds",
      codes
          "Axis 0 selection is outside declared [3:0]. Flattened waveform bit indices are not declared array coordinates.",
    )
unfolding view_of find_coordinates search_rows check_selects check_declared check_bounds
    flat_rewrite to_string
outside_run = refl

hint_run :
    flat_rewrite (codes "top.bus") two_axes ((pos 10, pos 10) ∷ [])
    ≡ codes " Flattened bit 10 " ++ (0xE2 ∷ 0x86 ∷ 0x92 ∷ codes " top.bus[1][5].")
unfolding flat_rewrite to_string
hint_run = refl
