-- ===== src/Api/Format.antt =====
-- format_multibit_value of AgentAPI.cpp: the text for a vector's value.
use auto_waveform_debugger.Base.{
  ℕ, ◌+◌, ◌-◌, ◌*◌, Bool, true, false, ◌&&◌, ◌||◌, [], ◌∷◌, Str, codes, if◌then◌else◌, ltb, ◌==◌,
}
use auto_waveform_debugger.Api.Values.{
  Radix, hex, bin, dec, normalize_radix, hex_digits, bit_digits, pad_zeros, normalize_multibit_bits,
  binary_bits_to_decimal,
}

-- The loop over a nibble: are all bits 'z', is one 'x' or 'z', and the number of the others.
unfoldable pub scan_nibble : Str → Bool × Bool × ℕ → Bool × Bool × ℕ
scan_nibble [] s = s
scan_nibble (bit ∷ bits) (all_z, has_unknown, numeric) =
    let all_z' = if bit == b'z' then all_z else false in
    let unknown = bit == b'x' || bit == b'z' in
    scan_nibble bits (
      all_z',
      if unknown then true else has_unknown,
      if unknown then numeric else numeric * 2 + (if bit == b'1' then 1 else 0),
    )

-- "0123456789abcdef"[numeric]
abbrev pub hex_char : ℕ → ℕ
hex_char n = if ltb n 10 then b'0' + n else b'a' + (n - 10)

abbrev nibble_char : Bool × Bool × ℕ → ℕ
nibble_char (all_z, has_unknown, numeric) =
    if all_z then b'z' else if has_unknown then b'x' else hex_char numeric

unfoldable pub nibble_of : Str → ℕ
unfolding scan_nibble
nibble_of nibble = nibble_char (scan_nibble nibble (true, false, 0))

-- substr(i, 4) for i = 0, 4, 8, ...; the last one may be shorter.
unfoldable pub hex_of_bits : Str → Str
hex_of_bits (a ∷ b ∷ c ∷ d ∷ rest) = nibble_of (a ∷ b ∷ c ∷ d ∷ []) ∷ hex_of_bits rest
hex_of_bits [] = []
hex_of_bits (a ∷ []) = nibble_of (a ∷ []) ∷ []
hex_of_bits (a ∷ b ∷ []) = nibble_of (a ∷ b ∷ []) ∷ []
hex_of_bits (a ∷ b ∷ c ∷ []) = nibble_of (a ∷ b ∷ c ∷ []) ∷ []

abbrev pub all_known : Str → Bool
all_known [] = true
all_known (bit ∷ bits) = (bit == b'0' || bit == b'1') && all_known bits

abbrev pub is_logic_char : ℕ → Bool
is_logic_char c = c == b'0' || (c == b'1' || (c == b'x' || c == b'z'))

-- The cases for the radix, on bits that are not empty.
abbrev pub print_bits : Radix → ℕ → Str → Str
print_bits bin width bits = b'b' ∷ pad_zeros (bit_digits width) bits
print_bits dec width bits =
    if all_known bits then b'd' ∷ binary_bits_to_decimal bits else b'b' ∷ bits
print_bits hex width bits = b'h' ∷ hex_of_bits (pad_zeros (hex_digits width * 4) bits)

abbrev unknown_value : Radix → Str
unknown_value dec = codes "dx"
unknown_value bin = codes "bx"
unknown_value hex = codes "hx"

abbrev pub print_normalized : Radix → ℕ → Str → Str
print_normalized radix width [] = unknown_value radix
print_normalized radix width (front ∷ rest) =
    if is_logic_char front then print_bits radix width (front ∷ rest) else front ∷ rest

unfoldable pub format_multibit_value : Str → ℕ → Str → Str
unfolding hex_of_bits
format_multibit_value value width radix =
    print_normalized (normalize_radix radix) width (normalize_multibit_bits value width)
