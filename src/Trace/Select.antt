-- ===== src/Trace/Select.antt =====
-- Bit selects and the signal of a query: FormatBitRange, ParseExactBitMapText, ParseSignedAxis and
-- ParseSignalQuery of db/GraphDb.cc.
pub mod Bits
pub mod RoundTrip
use auto_waveform_debugger.Base.{
  ℕ, zero, suc, ◌+◌, ◌-◌, ◌^◌, Bool, true, false, not, ◌&&◌, ◌||◌, Option, none, some, List, [],
  ◌∷◌, ◌++◌, Str, is_empty, length, last?, if◌then◌else◌, ltb, leb, ◌==◌,
}
use auto_waveform_debugger.Base.Text.{has_char, before_char}
use auto_waveform_debugger.Base.Scan.{leading_digits}
use auto_waveform_debugger.Trace.Number.{to_string, are_digits}
use auto_waveform_debugger.Trace.Number.Integer.{ℤ, pos, negsuc, integer_text, same_integer}
use auto_waveform_debugger.Trace.Hier.{leaf_name}

-- std::from_chars into an int32_t that reads the whole text: an optional minus sign and digits.
abbrev pub digits_value : Str → Option ℕ
digits_value s = if are_digits s then leading_digits none s else none

abbrev pub to_int32 : Bool → Option ℕ → Option ℤ
to_int32 negative none = none
to_int32 false (some n) = if ltb n (2 ^ 31) then some (pos n) else none
to_int32 true (some zero) = some (pos zero)
to_int32 true (some (suc n)) = if ltb n (2 ^ 31) then some (negsuc n) else none

unfoldable pub from_chars : Str → Option ℤ
unfolding leading_digits
from_chars [] = none
from_chars (c ∷ s) =
    if c == b'-' then to_int32 true (digits_value s) else to_int32 false (digits_value (c ∷ s))

abbrev pub Axis : Type 0
Axis = ℤ × ℤ

-- s.substr(s.find(c) + 1), empty where c does not occur
unfoldable pub after_char : ℕ → Str → Str
after_char c [] = []
after_char c (d ∷ s) = if c == d then s else after_char c s

abbrev pub both : Option ℤ → Option ℤ → Option Axis
both (some l) (some r) = some (l, r)
both l r = none

-- One number, or two with a colon between them.
abbrev pub parse_bounds : (Str → Option ℤ) → Str → Option Axis
parse_bounds parse inside =
    if has_char b':' inside
    then both (parse (before_char b':' inside)) (parse (after_char b':' inside))
    else both (parse inside) (parse inside)

unfoldable pub format_bit_range : Axis → Str
unfolding to_string
format_bit_range (hi, lo) =
    if same_integer hi lo
    then b'[' ∷ (integer_text hi ++ b']' ∷ [])
    else b'[' ∷ (integer_text hi ++ b':' ∷ (integer_text lo ++ b']' ∷ []))

-- The text without its last character.
unfoldable pub but_last : Str → Str
but_last [] = []
but_last (c ∷ []) = []
but_last (c ∷ d ∷ s) = c ∷ but_last (d ∷ s)

abbrev pub ends_with_bracket : Option ℕ → Bool
ends_with_bracket none = false
ends_with_bracket (some c) = c == b']'

unfoldable pub parse_exact_bit_map_text : Str → Option Axis
unfolding from_chars after_char but_last
parse_exact_bit_map_text [] = none
parse_exact_bit_map_text (c ∷ s) =
    if ltb (length (c ∷ s)) 3 || (not (c == b'[') || not (ends_with_bracket (last? (c ∷ s))))
    then none
    else parse_bounds from_chars (but_last s)

-- The lambda of ParseSignedAxis: a plus sign may stand before a number.
unfoldable pub parse_signed : Str → Option ℤ
unfolding from_chars
parse_signed [] = none
parse_signed (c ∷ []) = if c == b'+' then none else from_chars (c ∷ [])
parse_signed (c ∷ d ∷ s) =
    if c == b'+'
    then (if d == b'-' || d == b'+' then none else from_chars (d ∷ s))
    else from_chars (c ∷ d ∷ s)

unfoldable pub parse_signed_axis : Str → Option Axis
unfolding parse_signed after_char
parse_signed_axis inside = parse_bounds parse_signed inside

-- The path up to its last dot, and the dot.
unfoldable pub before_leaf : Str → Str
before_leaf [] = []
before_leaf (c ∷ s) =
    if has_char b'.' s then c ∷ before_leaf s else if c == b'.' then c ∷ [] else []

abbrev pub cons_axis : Option Axis → Option (List Axis) → Option (List Axis)
cons_axis (some axis) (some axes) = some (axis ∷ axes)
cons_axis axis axes = none

-- The loop over the selects, on fuel for them.
unfoldable pub parse_axes : ℕ → Str → Option (List Axis)
unfolding parse_signed_axis after_char
parse_axes fuel [] = some []
parse_axes zero (c ∷ s) = none
parse_axes (suc fuel) (c ∷ s) =
    let rest = parse_axes fuel (after_char b']' s) in
    if c == b'[' && has_char b']' s
    then cons_axis (parse_signed_axis (before_char b']' s)) rest
    else none

abbrev pub with_base : Str → Option (List Axis) → Option (Str × List Axis)
with_base base none = none
with_base base (some axes) = some (base, axes)

-- The text from the first opening bracket on.
unfoldable pub from_bracket : Str → Str
from_bracket [] = []
from_bracket (c ∷ s) = if c == b'[' then c ∷ s else from_bracket s

abbrev pub parse_leaf : Str → Str → Str → Option (Str × List Axis)
parse_leaf input front leaf =
    if not (has_char b'[' leaf)
    then (if has_char b']' leaf then none else some (input, []))
    else if is_empty (before_char b'[' leaf)
    then none
    else with_base (front ++ before_char b'[' leaf)
        (parse_axes (length (from_bracket leaf)) (from_bracket leaf))

-- The signal and its axes; none where ParseSignalQuery returns false.
unfoldable pub parse_signal_query : Str → Option (Str × List Axis)
unfolding parse_axes from_bracket before_leaf leaf_name
parse_signal_query input = parse_leaf input (before_leaf input) (leaf_name input)
