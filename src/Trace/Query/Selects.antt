-- ===== src/Trace/Query/Selects.antt =====
-- The checks of RunTraceWithSession (query/TraceQuery.cc) on the selects of a query, before the
-- traversal. What is written on std::cout and std::cerr is in the diagnostics.
pub mod Accepted
use auto_waveform_debugger.Base.{
  ℕ, zero, suc, ◌+◌, ◌-◌, ◌^◌, Bool, true, false, not, ◌&&◌, ◌||◌, Option, none, some, List, [],
  ◌∷◌, ◌++◌, Str, codes, is_empty, is_some, length, take, drop, if◌then◌else◌, ltb, leb,
}
use auto_waveform_debugger.Trace.Number.{to_string}
use auto_waveform_debugger.Trace.Number.Integer.{ℤ, pos, negsuc, integer_text, same_integer}
use auto_waveform_debugger.Trace.Overlap.{
  pos_part, neg_part, leb_ℤ, min_ℤ, max_ℤ, parse_endpoint_axes,
}
use auto_waveform_debugger.Trace.Endpoint.{EndpointRecord}
use auto_waveform_debugger.Trace.Select.{Axis, format_bit_range}
use auto_waveform_debugger.Trace.Query.{
  DeclaredAxis, SignalCoordinates, has_flag, axis_fixed, Diagnostic, TraceOptions,
}
use auto_waveform_debugger.Trace.Query.Rewrite.{flat_rewrite}

-- What the session holds about the signal.
pub record SignalView : Type 0 where
  pub format_version : ℕ
  pub member_declared_axes_verified : Bool
  -- the field of a struct, with its place in the parent
  pub is_member : Bool
  pub member_bit_offset : ℕ
  pub member_bit_width : ℕ
  pub coordinates : Option SignalCoordinates
  pub axes_of_db : List DeclaredAxis
  pub drivers : List EndpointRecord
  pub loads : List EndpointRecord
  -- in global_nets or global_sink_to_source
  pub is_global : Bool

abbrev pub coordinate_packed_outer : ℕ
coordinate_packed_outer = 1

abbrev pub coordinate_unsupported : ℕ
coordinate_unsupported = 2

abbrev pub coordinate_terminal_aggregate : ℕ
coordinate_terminal_aggregate = 8

-- The axes that belong to the signal.
abbrev pub declared_of : SignalView → List DeclaredAxis
declared_of view = elim view.coordinates [
  | none ↦ []
  | some c ↦ take c.axis_count (drop c.axis_begin view.axes_of_db)
]

abbrev pub encoding_of : SignalView → Str
encoding_of view =
    if view.is_member
    then codes "parent_struct_bits"
    else if is_some view.coordinates
    then codes "declared_axes"
    else if ltb view.format_version 6
    then codes "legacy_unverified"
    else codes "flat_bits"

-- A code and a message, where a check fails.
abbrev pub Failure : Type 0
Failure = Option (Str × Str)

abbrev pub then_check : Failure → Failure → Failure
then_check none next = next
then_check (some f) next = some f

abbrev pub fail_if : Bool → Str → Str → Failure
fail_if b code message = if b then some (code, message) else none

abbrev pub many_axes : Option (List (Option Axis)) → Bool
many_axes none = false
many_axes (some axes) = ltb 1 (length axes)

abbrev pub multi_axis_evidence : List EndpointRecord → Bool
multi_axis_evidence [] = false
multi_axis_evidence (e ∷ es) = many_axes (parse_endpoint_axes e.bit_map) || multi_axis_evidence es

abbrev pub is_legacy : SignalView → Bool
is_legacy view =
    ltb view.format_version 6 || (view.is_member && not view.member_declared_axes_verified)

abbrev pub legacy_warning : Diagnostic
legacy_warning = record {
  code = codes "legacy_dimensions_unverified";
  message =
      codes "Legacy DB lacks declared dimensions. Selected coordinates may be flattened bits or "
      ++ codes "array axes; rebuild with the current compiler to disambiguate.";
  severity = codes "warning";
}

unfoldable pub check_legacy : SignalView → List Axis → Failure
unfolding parse_endpoint_axes
check_legacy view selects =
    fail_if
      (ltb 1 (length selects)
        || (multi_axis_evidence view.drivers || multi_axis_evidence view.loads))
      (codes "legacy_multidimensional_select")
      (codes "Selected signal has multidimensional access evidence but the legacy DB lacks "
        ++ codes "declared-axis metadata. Rebuild the DB with the current compiler.")

-- A select that leaves the bounds of a fixed axis.
abbrev pub is_outside : DeclaredAxis → Axis → Bool
is_outside declared (first, second) =
    has_flag axis_fixed declared.flags
    && (not (leb_ℤ (min_ℤ declared.left declared.right) (min_ℤ first second))
        || not (leb_ℤ (max_ℤ first second) (max_ℤ declared.left declared.right)))

abbrev pub bounds_message : ℕ → DeclaredAxis → Str → Str
bounds_message axis declared hint =
    codes "Axis "
    ++ (to_string axis
        ++ (codes " selection is outside declared ["
            ++ (integer_text declared.left
                ++ (codes ":"
                    ++ (integer_text declared.right
                        ++ (codes "]. Flattened waveform bit indices are not declared array "
                            ++ (codes "coordinates." ++ hint)))))))

-- The loop over the selects, from the axis of this number on; `hint` is what flat_rewrite adds.
unfoldable pub check_bounds : Str → ℕ → List DeclaredAxis → List Axis → Failure
check_bounds hint axis (declared ∷ axes) (select ∷ selects) =
    then_check
      (fail_if (is_outside declared select) (codes "axis_out_of_bounds")
        (bounds_message axis declared hint))
      (check_bounds hint (axis + 1) axes selects)
check_bounds hint axis axes selects = none

unfoldable pub row_query : List DeclaredAxis → Str
unfolding format_bit_range
row_query [] = []
row_query (axis ∷ axes) = format_bit_range (axis.left, axis.right) ++ row_query axes

-- The advice for a single select on several packed axes.
unfoldable pub ambiguous_message : Str → Bool → List DeclaredAxis → Axis → Str → Str
unfolding row_query format_bit_range
ambiguous_message root member axes (first, second) hint =
    codes "A single-axis query on a packed multidimensional signal can mean a flattened waveform "
    ++ (codes "bit or a declared outer axis. Supply multiple declared axes or query the whole "
        ++ (codes "signal; implicit flattened-bit interpretation is unsupported."
            ++ ((if same_integer first second
                  then codes " Declared row " ++ integer_text first
                  else codes " Declared row range " ++ format_bit_range (first, second))
                ++ (codes " "
                    ++ ((0xE2 ∷ 0x86 ∷ 0x92 ∷ [])
                        ++ (codes " "
                            ++ (root
                                ++ (format_bit_range (first, second)
                                    ++ (row_query (drop 1 axes)
                                        ++ (codes "."
                                            ++ (hint
                                                ++ (if member
                                                    then codes
                                                        " Struct-member multi-axis selects remain unsupported; query the whole member signal."
                                                    else []))))))))))))

abbrev pub is_single : List Axis → Bool
is_single selects = leb (length selects) 1 && leb 1 (length selects)

unfoldable pub check_ambiguous :
    Str → Str → Bool → SignalCoordinates → List DeclaredAxis → List Axis → Failure
unfolding ambiguous_message
check_ambiguous hint root member c axes [] = none
check_ambiguous hint root member c axes (select ∷ []) =
    fail_if (ltb 1 c.axis_count && has_flag coordinate_packed_outer c.flags)
      (codes "ambiguous_single_axis") (ambiguous_message root member axes select hint)
check_ambiguous hint root member c axes (s ∷ t ∷ selects) = none

unfoldable pub check_declared : Str → SignalView → SignalCoordinates → List Axis → Failure
check_declared root view c selects =
    let axes = declared_of view in
    let hint = flat_rewrite root axes selects in
    then_check
      (fail_if (has_flag coordinate_unsupported c.flags) (codes "unsupported_coordinate_type") (
        codes "Selected coordinates of "
        ++ ((if has_flag coordinate_terminal_aggregate c.flags
              then codes "a packed struct or packed union array"
              else codes "a nonnumeric associative array or nonintegral element type")
            ++ (codes
                  " remain unsupported in the current DB format. Querying the whole signal still works: "
                ++ root))))
      (then_check
        (fail_if (ltb (length axes) (length selects)) (codes "too_many_axes")
          (codes "Query supplies more axes than the signal declares."))
        (then_check (check_bounds hint 0 axes selects)
          (check_ambiguous hint root view.is_member c axes selects)))

unfoldable pub check_undeclared : SignalView → List Axis → Failure
check_undeclared view selects =
    fail_if (ltb 1 (length selects) && not view.is_member) (codes "unsupported_coordinate_type") (
      codes
        "Signal has no supported multidimensional declaration; multidimensional selects remain unsupported.")

-- A bit of a member, where it has no coordinates of its own. Offset and width are of 32 bits.
unfoldable pub check_member : SignalView → List Axis → Failure
check_member view [] = none
check_member view ((first, second) ∷ []) =
    if view.is_member && not (is_some view.coordinates)
    then then_check
        (fail_if
          (not (leb_ℤ (pos 0) (min_ℤ first second))
            || leb_ℤ (pos view.member_bit_width) (max_ℤ first second))
          (codes "axis_out_of_bounds")
          (codes "Member bit selection is outside the member's stored width."))
        (fail_if
          (ltb (2 ^ 31 - 1 + neg_part (max_ℤ first second))
            (pos_part (max_ℤ first second) + view.member_bit_offset))
          (codes "unsupported_coordinate_type")
          (codes "Member selection exceeds the supported parent bit coordinates."))
    else none
check_member view (s ∷ t ∷ selects) = none

-- Several selects are refused for members and for compact global nets.
unfoldable pub check_several : Str → SignalView → List Axis → Failure
check_several root view selects =
    if ltb 1 (length selects)
    then then_check
        (fail_if view.is_member (codes "unsupported_struct_member_axes")
          (codes "Multi-dimensional selects of struct members remain unsupported: " ++ root))
        (fail_if view.is_global (codes "unsupported_compact_global_axes")
          (codes "Multi-dimensional selects of compact global nets remain unsupported: " ++ root))
    else none

abbrev pub check_axes : Str → SignalView → List Axis → Failure
check_axes root view selects =
    if is_legacy view then check_legacy view selects else elim view.coordinates [
      | none ↦ check_undeclared view selects
      | some c ↦ check_declared root view c selects
    ]

unfoldable pub check_selects : Str → SignalView → List Axis → Failure
check_selects root view [] = none
check_selects root view (s ∷ selects) =
    then_check (check_axes root view (s ∷ selects))
      (then_check (check_member view (s ∷ selects)) (check_several root view (s ∷ selects)))

-- The options for the traversal, or those whose last diagnostic is an error.
pub data Checked : Type 0 where
  accepted : TraceOptions → Checked
  refused : TraceOptions → Checked

abbrev pub add_diagnostic : TraceOptions → Diagnostic → TraceOptions
add_diagnostic opts d = record opts { diagnostics = opts.diagnostics ++ d ∷ [] }

abbrev pub warned : SignalView → TraceOptions → TraceOptions
warned view opts =
    if not (is_empty opts.signal_select_axes) && is_legacy view
    then add_diagnostic opts legacy_warning
    else opts

abbrev pub checked : TraceOptions → Failure → Checked
checked opts none = accepted opts
checked opts (some (code, message)) =
    refused
      (add_diagnostic opts (record { code = code; message = message; severity = codes "error" }))

unfoldable pub check_query : SignalView → TraceOptions → Checked
check_query view parsed =
    let opts = record parsed {
      coordinate_encoding = encoding_of view;
      declared_axes = declared_of view;
    } in
    checked (warned view opts) (check_selects opts.root_signal view opts.signal_select_axes)
