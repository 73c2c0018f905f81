-- ===== src/Api/Query.antt =====
-- normalize_query_value_to_bits and value_matches_query of AgentAPI.cpp: a value that is asked for.
pub mod RoundTrip
use mathlib.Core.Option
use auto_waveform_debugger.Base.{
  ℕ, ◌-◌, ◌≡◌, Bool, true, false, ◌||◌, Option, none, some, List, [], ◌∷◌, ◌++◌, Str, codes, str_eq,
  if◌then◌else◌, ltb, leb, ◌==◌, is_empty, length, drop, replicate,
}
use auto_waveform_debugger.Base.Text.{to_lower}
use auto_waveform_debugger.Wave.Signal.{SignalInfo}
use auto_waveform_debugger.Api.Values.{
  Radix, hex, bin, dec, normalize_radix, bit_digits, is_scalar, simplify_scalar_value, logic_chars,
  normalize_multibit_bits, decimal_string_to_bits,
}

-- Extended by zeros, or cut, to `n` bits.
unfoldable pub fit_bits : ℕ → Str → Str
fit_bits n bits =
    if ltb (length bits) n
    then replicate (n - length bits) b'0' ++ bits
    else if ltb n (length bits)
    then drop (length bits - n) bits
    else bits

-- No bits stay no bits: the value could not be parsed.
abbrev pub fit_parsed : ℕ → Str → Str
fit_parsed width [] = []
fit_parsed width (bit ∷ bits) = fit_bits (bit_digits width) (bit ∷ bits)

abbrev is_dec : Radix → Bool
is_dec dec = true
is_dec _ = false

-- A vector's value, by its prefix or the radix. `none` is fuel that ran out, in the decimal case.
unfoldable pub vector_query : ℕ → Str → ℕ → Radix → Option Str
vector_query front rest width radix =
    let prefix = to_lower front in
    if prefix == b'b'
    then some (fit_parsed width (logic_chars rest))
    else if prefix == b'h'
    then some (normalize_multibit_bits (front ∷ rest) width)
    else if prefix == b'd' || is_dec radix
    then Option.map (fit_parsed width)
        (decimal_string_to_bits (if prefix == b'd' then rest else front ∷ rest))
    else elim radix [
      | bin ↦ some (fit_parsed width (logic_chars (front ∷ rest)))
      | _ ↦ some (normalize_multibit_bits (b'h' ∷ front ∷ rest) width)
    ]

-- A scalar's value: the prefixes are taken off, in the recursive call.
unfoldable pub scalar_query : Str → Str
scalar_query [] = []
scalar_query (front ∷ rest) =
    let prefix = to_lower front in
    let inner = scalar_query rest in
    if is_scalar (front ∷ rest)
    then front ∷ rest
    else if prefix == b'b' || (prefix == b'd' || prefix == b'h')
    then inner
    else simplify_scalar_value (front ∷ rest)

unfoldable pub normalize_query_value_to_bits : Str → ℕ → Str → Option Str
unfolding vector_query scalar_query
normalize_query_value_to_bits [] width radix = some []
normalize_query_value_to_bits (front ∷ rest) width radix =
    if leb width 1
    then some (scalar_query (front ∷ rest))
    else vector_query front rest width (normalize_radix radix)

unfoldable pub value_matches_query : SignalInfo → Str → Str → Bool
value_matches_query info raw_value query_bits =
    if is_empty query_bits
    then false
    else if leb info.width 1
    then str_eq (simplify_scalar_value raw_value) query_bits
    else str_eq (normalize_multibit_bits raw_value info.width) query_bits
