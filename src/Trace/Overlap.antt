-- ===== src/Trace/Overlap.antt =====
-- Which endpoints a query with selects keeps: ParseEndpointAxes, ParseExactBitRange, RangesOverlap,
-- EndpointMatchesSignalSelect and EndpointMatchesSignalAxes of db/GraphDb.cc.
pub mod Exact
use auto_waveform_debugger.Base.{
  ℕ, zero, suc, ◌+◌, ◌-◌, ◌%◌, ◌^◌, Bool, true, false, not, ◌&&◌, ◌||◌, Option, none, some, List,
  [], ◌∷◌, Str, is_empty, length, if◌then◌else◌, ltb, leb, ◌==◌,
}
use auto_waveform_debugger.Base.Text.{has_char, before_char}
use auto_waveform_debugger.Api.Arguments.{stoll}
use auto_waveform_debugger.Trace.Number.Integer.{ℤ, pos, negsuc}
use auto_waveform_debugger.Trace.Endpoint.{EndpointKind, port, expr, EndpointRecord}
use auto_waveform_debugger.Trace.Select.{Axis, after_char, both, parse_signed_axis}

abbrev pub pos_part : ℤ → ℕ
pos_part (pos n) = n
pos_part (negsuc n) = 0

abbrev pub neg_part : ℤ → ℕ
neg_part (pos n) = 0
neg_part (negsuc n) = suc n

abbrev pub leb_ℤ : ℤ → ℤ → Bool
leb_ℤ a b = leb (pos_part a + neg_part b) (pos_part b + neg_part a)

abbrev pub min_ℤ : ℤ → ℤ → ℤ
min_ℤ a b = if leb_ℤ a b then a else b

abbrev pub max_ℤ : ℤ → ℤ → ℤ
max_ℤ a b = if leb_ℤ a b then b else a

unfoldable pub ranges_overlap : Axis → Axis → Bool
ranges_overlap a b =
    leb_ℤ (max_ℤ (min_ℤ a.0 a.1) (min_ℤ b.0 b.1)) (min_ℤ (max_ℤ a.0 a.1) (max_ℤ b.0 b.1))

-- static_cast<int32_t> of a word of 64 bits
abbrev pub signed32 : ℕ → ℤ
signed32 n = if ltb n (2 ^ 31) then pos n else negsuc (2 ^ 32 - 1 - n)

abbrev pub to_int32_wrapped : Option ℕ → Option ℤ
to_int32_wrapped none = none
to_int32_wrapped (some word) = some (signed32 (word % 2 ^ 32))

abbrev pub exact_bounds : Str → Option Axis
exact_bounds inside =
    if has_char b':' inside
    then both (to_int32_wrapped (stoll (before_char b':' inside)))
        (to_int32_wrapped (stoll (after_char b':' inside)))
    else both (to_int32_wrapped (stoll inside)) (to_int32_wrapped (stoll inside))

-- The range of a bit map in its first brackets, which may not be empty.
unfoldable pub parse_exact_bit_range : Str → Option Axis
unfolding stoll after_char
parse_exact_bit_range [] = none
parse_exact_bit_range (c ∷ s) =
    if not (c == b'[') || (not (has_char b']' s) || is_empty (before_char b']' s))
    then none
    else exact_bounds (before_char b']' s)

abbrev pub to_front : ℕ → Option (Str × Str) → Option (Str × Str)
to_front c none = none
to_front c (some (inside, rest)) = some (c ∷ inside, rest)

-- The inner loop: the text up to the bracket that closes, at so many levels, and what is behind it.
unfoldable pub close_axis : ℕ → Str → Option (Str × Str)
close_axis depth [] = none
close_axis depth (c ∷ s) =
    let depth' = if c == b'[' then depth + 1 else if c == b']' then depth - 1 else depth in
    let rest = close_axis depth' s in if depth' == 0 then some ([], s) else to_front c rest

abbrev pub add_axis : Option Axis → Option (List (Option Axis)) → Option (List (Option Axis))
add_axis axis none = none
add_axis axis (some axes) = some (axis ∷ axes)

-- The outer loop, on fuel for the axes; an axis that is not read is unknown.
unfoldable pub endpoint_axes : ℕ → Str → Option (List (Option Axis))
unfolding close_axis parse_signed_axis
endpoint_axes fuel [] = some []
endpoint_axes zero (c ∷ s) = none
endpoint_axes (suc fuel) (c ∷ s) =
    let rest : Option (List (Option Axis)) = elim (close_axis 1 s) [
      | none ↦ none
      | some (inside, s') ↦ add_axis (parse_signed_axis inside) (endpoint_axes fuel s')
    ] in
    if c == b'[' then rest else none

unfoldable pub parse_endpoint_axes : Str → Option (List (Option Axis))
unfolding endpoint_axes
parse_endpoint_axes bit_map = endpoint_axes (length bit_map) bit_map

abbrev pub overlaps_known : Option Axis → Axis → Bool
overlaps_known none axis = true
overlaps_known (some known) axis = ranges_overlap known axis

abbrev pub is_port : EndpointKind → Bool
is_port port = true
is_port expr = false

unfoldable pub endpoint_matches_signal_select : EndpointRecord → Option Axis → Bool
unfolding ranges_overlap parse_exact_bit_range
endpoint_matches_signal_select e none = true
endpoint_matches_signal_select e (some axis) =
    is_port e.kind
    || (is_empty e.bit_map
        || (e.bit_map_approximate || overlaps_known (parse_exact_bit_range e.bit_map) axis))

-- The loop over the axes that both have.
unfoldable pub axes_overlap : List Axis → List (Option Axis) → Bool
unfolding ranges_overlap
axes_overlap (axis ∷ axes) (some known ∷ others) =
    ranges_overlap axis known && axes_overlap axes others
axes_overlap (axis ∷ axes) (none ∷ others) = axes_overlap axes others
axes_overlap axes others = true

abbrev pub select_first : EndpointRecord → List Axis → Bool
select_first e [] = true
select_first e (axis ∷ []) = endpoint_matches_signal_select e (some axis)
select_first e (axis ∷ other ∷ axes) = false

abbrev pub overlaps_parsed : List Axis → Option (List (Option Axis)) → Bool
overlaps_parsed axes none = true
overlaps_parsed axes (some known) = axes_overlap axes known

unfoldable pub endpoint_matches_signal_axes : EndpointRecord → List Axis → Bool
unfolding axes_overlap endpoint_matches_signal_select parse_endpoint_axes
endpoint_matches_signal_axes e axes =
    if is_empty axes || (is_port e.kind || is_empty e.bit_map)
    then true
    else if not e.bit_map_logical_axes
    then select_first e axes
    else overlaps_parsed axes (parse_endpoint_axes e.bit_map)
