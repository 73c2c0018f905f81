-- ===== src/Trace/Query.antt =====
-- The trace query up to its traversal: query/TraceQuery.cc. Its arguments, the signal that is asked
-- for, and the checks of its selects.
pub mod Args
pub mod Resolve
pub mod Coordinates
pub mod Rewrite
pub mod Selects
pub mod Run
use auto_waveform_debugger.Base.{ℕ, ◌/◌, ◌%◌, Bool, Option, List, Str, ◌==◌}
use auto_waveform_debugger.Trace.Hier.{OutputFormat}
use auto_waveform_debugger.Trace.Number.Integer.{ℤ}
use auto_waveform_debugger.Trace.Select.{Axis}

-- GraphDeclaredAxis and GraphSignalCoordinates of db/GraphDbTypes.h.
pub record DeclaredAxis : Type 0 where
  pub left : ℤ
  pub right : ℤ
  pub flags : ℕ

pub record SignalCoordinates : Type 0 where
  pub signal_id : ℕ
  pub axis_begin : ℕ
  pub axis_count : ℕ
  pub flags : ℕ

-- flags & bit, for a power of two.
abbrev pub has_flag : ℕ → ℕ → Bool
has_flag bit flags = flags / bit % 2 == 1

abbrev pub axis_fixed : ℕ
axis_fixed = 1

abbrev pub axis_packed : ℕ
axis_packed = 2

pub record Diagnostic : Type 0 where
  pub code : Str
  pub message : Str
  pub severity : Str

-- A std::regex is held by its pattern.
pub record TraceOptions : Type 0 where
  pub mode : Str
  pub signal : Str
  pub root_signal : Str
  pub signal_select : Option Axis
  pub signal_select_axes : List Axis
  pub cone_level : ℕ
  pub prefer_port_hop : Bool
  pub depth_limit : ℕ
  pub max_nodes : ℕ
  pub include_re : Option Str
  pub exclude_re : Option Str
  pub stop_at_re : Option Str
  pub format : OutputFormat
  pub coordinate_encoding : Str
  pub declared_axes : List DeclaredAxis
  pub diagnostics : List Diagnostic
