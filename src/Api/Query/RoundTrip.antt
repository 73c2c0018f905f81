-- ===== src/Api/Query/RoundTrip.antt =====
-- What format_multibit_value of AgentAPI.cpp prints, read back by normalize_query_value_to_bits.
use auto_waveform_debugger.Base.{
  ℕ, zero, suc, ◌-◌, ◌*◌, ◌^◌, ◌≤◌, ◌≡◌, ◌≢◌, refl, ap, ◌∙◌, ◌⊎◌, inl, inr, true, false, some, [],
  ◌∷◌, ◌++◌, Str, arith, length, length-append, length-replicate, replicate, drop, ltb, leb,
  Bool-cases, str_eq_refl,
}
use auto_waveform_debugger.Wave.Signal.{SignalInfo}
use auto_waveform_debugger.Api.Values.{
  Radix, hex, bin, dec, normalize_radix, hex_digits, bit_digits, pad_zeros, keep_low, nibble_of_hex,
  bits_of_hex, logic_chars, normalize_logic_char, normalize_multibit_bits, binary_bits_to_decimal,
  all_digits,
}
use auto_waveform_debugger.Api.Values.Bits.{
  bits_value, AreBits, AreDigits, bits_value-zeros, bits_value_unique, bits_value-lt, All-append,
  All-replicate,
}
use auto_waveform_debugger.Api.Values.Decimal.{
  binary_bits_to_decimal_value, binary_bits_to_decimal-ne_nil,
}
use auto_waveform_debugger.Api.Values.Halving.{decimal_string_to_bits_value}
use auto_waveform_debugger.Api.Format.{
  nibble_of, hex_of_bits, is_logic_char, all_known, print_bits, print_normalized,
  format_multibit_value,
}
use auto_waveform_debugger.Api.Query.{
  fit_bits, fit_parsed, vector_query, normalize_query_value_to_bits, value_matches_query,
}

bit_cases : (b : ℕ) → (b'0' ≤ b) × (b ≤ b'1') → (b ≡ b'0') ⊎ (b ≡ b'1')
bit_cases b h = omega arith

logic_chars-bits : (bs : Str) → AreBits bs → logic_chars bs ≡ bs
unfolding logic_chars normalize_logic_char
logic_chars-bits [] h = refl
logic_chars-bits (b ∷ bs) h = elim (bit_cases b h.0) [
  | inl e ↦ rw (e, logic_chars-bits bs h.1)
  | inr e ↦ rw (e, logic_chars-bits bs h.1)
]

all_known-bits : (bs : Str) → AreBits bs → all_known bs ≡ true
all_known-bits [] h = refl
all_known-bits (b ∷ bs) h = ground (arith, all_known-bits bs h.1, bit_cases b h.0)

all_digits-digits : (ds : Str) → AreDigits ds → all_digits ds ≡ true
all_digits-digits [] h = refl
all_digits-digits (d ∷ ds) h = ground (arith, all_digits-digits ds h.1)

-- The hexadecimal character of four bits, read back.
abbrev IsReadBack : ℕ → ℕ → ℕ → ℕ → Type 0
IsReadBack a b c d = nibble_of_hex (nibble_of (a ∷ b ∷ c ∷ d ∷ [])) ≡ a ∷ b ∷ c ∷ d ∷ []

bit_elim : (P : ℕ → Type 0) → P b'0' → P b'1' → (b : ℕ) → (b'0' ≤ b) × (b ≤ b'1') → P b
bit_elim P p q b h = elim (bit_cases b h) [ inl e ↦ rw e p | inr e ↦ rw e q ]

nibble-nibble : (a b c d : ℕ) → AreBits (a ∷ b ∷ c ∷ d ∷ []) → IsReadBack a b c d
unfolding nibble_of_hex nibble_of
nibble-nibble a b c d h =
    bit_elim (λ x. IsReadBack x b c d)
      (bit_elim (λ x. IsReadBack b'0' x c d)
        (bit_elim (λ x. IsReadBack b'0' b'0' x d) (last refl refl) (last refl refl) c h.1.1.0)
        (bit_elim (λ x. IsReadBack b'0' b'1' x d) (last refl refl) (last refl refl) c h.1.1.0) b
        h.1.0)
      (bit_elim (λ x. IsReadBack b'1' x c d)
        (bit_elim (λ x. IsReadBack b'1' b'0' x d) (last refl refl) (last refl refl) c h.1.1.0)
        (bit_elim (λ x. IsReadBack b'1' b'1' x d) (last refl refl) (last refl refl) c h.1.1.0) b
        h.1.0)
      a h.0
  where
    last : {x y z : ℕ} → IsReadBack x y z b'0' → IsReadBack x y z b'1' → IsReadBack x y z d
    last {x} {y} {z} p q = bit_elim (IsReadBack x y z) p q d h.1.1.1.0

bits_of_hex-hex_of_bits :
    (n : ℕ) (bs : Str) → AreBits bs → length bs ≡ 4 * n → bits_of_hex (hex_of_bits bs) ≡ bs
unfolding bits_of_hex hex_of_bits
bits_of_hex-hex_of_bits n [] h e = refl
bits_of_hex-hex_of_bits zero (a ∷ bs) h e = absurd (omega arith)
bits_of_hex-hex_of_bits (suc n) (a ∷ []) h e = absurd (omega arith)
bits_of_hex-hex_of_bits (suc n) (a ∷ b ∷ []) h e = absurd (omega arith)
bits_of_hex-hex_of_bits (suc n) (a ∷ b ∷ c ∷ []) h e = absurd (omega arith)
bits_of_hex-hex_of_bits (suc n) (a ∷ b ∷ c ∷ d ∷ bs) h e =
    rw (nibble-nibble a b c d (h.0, (h.1.0, (h.1.1.0, (h.1.1.1.0, tt)))))
      (ap (λ r. a ∷ b ∷ c ∷ d ∷ r) (bits_of_hex-hex_of_bits n bs h.1.1.1.1 (omega arith)))

-- Padding in front of bits, and taking it off.
drop-replicate : (n : ℕ) (a : ℕ) (xs : Str) → drop n (replicate n a ++ xs) ≡ xs
drop-replicate zero a xs = refl
drop-replicate (suc n) a xs = drop-replicate n a xs

fit_bits-length :
    (w : ℕ) (bs : Str)
    → AreBits bs
    → length bs ≤ w
    → (length (fit_bits w bs) ≡ w)
      × AreBits (fit_bits w bs)
      × (bits_value 0 (fit_bits w bs) ≡ bits_value 0 bs)
unfolding fit_bits
fit_bits-length w bs h short = elim (Bool-cases (ltb (length bs) w)) [
  | inl e ↦ rw e (
    omega (
      arith,
      length-append (replicate (w - length bs) b'0') bs,
      length-replicate {A = ℕ} (w - length bs) b'0',
    ),
    All-append _ (replicate (w - length bs) b'0') bs
        (All-replicate _ (w - length bs) b'0' (omega arith)) h,
    bits_value-zeros (w - length bs) bs,
  )
  | inr e ↦ let f : ltb w (length bs) ≡ false = ground arith in rw (e, f) (ground arith, h, refl)
]

fit_bits_self : (w : ℕ) (bs : Str) → length bs ≡ w → fit_bits w bs ≡ bs
unfolding fit_bits
fit_bits_self w bs e = ground arith

pad_zeros-length :
    (m : ℕ) (bs : Str)
    → AreBits bs
    → length bs ≤ m
    → (length (pad_zeros m bs) ≡ m) × AreBits (pad_zeros m bs)
unfolding pad_zeros
pad_zeros-length m bs h short = elim (Bool-cases (ltb (length bs) m)) [
  | inl e ↦ rw e (
    omega (
      arith,
      length-append (replicate (m - length bs) b'0') bs,
      length-replicate {A = ℕ} (m - length bs) b'0',
    ),
    All-append _ (replicate (m - length bs) b'0') bs
        (All-replicate _ (m - length bs) b'0' (omega arith)) h,
  )
  | inr e ↦ rw e (ground arith, h)
]

pad_zeros_self : (m : ℕ) (bs : Str) → length bs ≡ m → pad_zeros m bs ≡ bs
unfolding pad_zeros
pad_zeros_self m bs e = ground arith

keep_low-pad_zeros : (w m : ℕ) (bs : Str) → length bs ≡ w → w ≤ m → keep_low w (pad_zeros m bs) ≡ bs
unfolding keep_low pad_zeros
keep_low-pad_zeros w m bs e h = elim (Bool-cases (ltb (length bs) m)) [
  | inl below ↦
      let n = m - length bs in
      let long : length (replicate n b'0' ++ bs) ≡ m =
        omega (arith, length-append (replicate n b'0') bs, length-replicate {A = ℕ} n b'0') in
      let cut : ltb w (length (replicate n b'0' ++ bs)) ≡ true = rw long (ground arith) in
      let count : length (replicate n b'0' ++ bs) - w ≡ n = rw long (omega arith) in
      rw (below, cut, count) (drop-replicate n b'0' bs)
  | inr full ↦ let fits : ltb w (length bs) ≡ false = ground arith in rw (full, fits) refl
]

hex_digits_fit : (w : ℕ) → w ≤ hex_digits w * 4
hex_digits_fit w = omega arith

logic_front : (b : ℕ) → (b'0' ≤ b) × (b ≤ b'1') → is_logic_char b ≡ true
logic_front b h = ground (arith, bit_cases b h)

-- The vector's bits, all known, in a width of at least 2.
module _ (width : ℕ) (front : ℕ) (rest : Str) (wide : 2 ≤ width) (known : AreBits (front ∷ rest))
    (exact : length (front ∷ rest) ≡ width) where
  bin_query :
      (radix : Radix)
      → vector_query b'b' (pad_zeros (bit_digits width) (front ∷ rest)) width radix
        ≡ some (front ∷ rest)
  unfolding vector_query
  bin_query radix =
      rw
        (
          pad_zeros_self (bit_digits width) (front ∷ rest) (omega arith),
          logic_chars-bits (front ∷ rest) known,
        )
        (ap some (fit_bits_self (bit_digits width) (front ∷ rest) (omega arith)))

  hex_query :
      (radix : Radix)
      → vector_query b'h'
          (hex_of_bits (pad_zeros (hex_digits width * 4) (front ∷ rest)))
          width
          radix
        ≡ some (front ∷ rest)
  unfolding vector_query normalize_multibit_bits
  hex_query radix =
      let m = hex_digits width * 4 in
      let fits : length (front ∷ rest) ≤ m = omega (arith, hex_digits_fit width) in
      let (long, binary) = pad_zeros-length m (front ∷ rest) known fits in
      rw
        (
          bits_of_hex-hex_of_bits (hex_digits width) (pad_zeros m (front ∷ rest)) binary
              (omega arith),
          pad_zeros_self m (pad_zeros m (front ∷ rest)) long,
        )
        (ap some
          (keep_low-pad_zeros (bit_digits width) m (front ∷ rest) (omega arith) (omega arith)))

  -- The bits that the decimal digits are parsed to, fitted to the width.
  fit_parsed-bits :
      (parsed : Str)
      → AreBits parsed
      → parsed ≢ []
      → length parsed ≤ width
      → bits_value 0 parsed ≡ bits_value 0 (front ∷ rest)
      → fit_parsed width parsed ≡ front ∷ rest
  fit_parsed-bits [] h ne short v = absurd (ne refl)
  fit_parsed-bits (b ∷ bs) h ne short v =
      let fitted = fit_bits-length (bit_digits width) (b ∷ bs) h (omega arith) in
      bits_value_unique (fit_bits (bit_digits width) (b ∷ bs)) (front ∷ rest) fitted.1 known
        (omega (arith, fitted.0)) (fitted.2 ∙ v)

  dec_query :
      (radix : Radix)
      → vector_query b'd' (binary_bits_to_decimal (front ∷ rest)) width radix ≡ some (front ∷ rest)
  unfolding vector_query
  dec_query radix =
      let (digits, value) = binary_bits_to_decimal_value (front ∷ rest) known in
      let (parsed, (result, binary, ne, number, short)) =
        decimal_string_to_bits_value (binary_bits_to_decimal (front ∷ rest))
          (binary_bits_to_decimal-ne_nil (front ∷ rest)) (all_digits-digits _ digits) in
      rw result (
        ap some (
          fit_parsed-bits parsed binary ne
            (short width (omega arith) (
              omega
                (arith, value, bits_value-lt (front ∷ rest) known, ap (λ (n : ℕ). 2 ^ n) exact)))
            (number ∙ value)))

  print_bits-query :
      (shown : Radix) (radix : Str)
      → normalize_query_value_to_bits (print_bits shown width (front ∷ rest)) width radix
        ≡ some (front ∷ rest)
  unfolding normalize_query_value_to_bits
  print_bits-query hex radix =
      let vector : leb width 1 ≡ false = ground arith in
      rw vector (hex_query (normalize_radix radix))
  print_bits-query bin radix =
      let vector : leb width 1 ≡ false = ground arith in
      rw vector (bin_query (normalize_radix radix))
  print_bits-query dec radix =
      let vector : leb width 1 ≡ false = ground arith in
      rw (all_known-bits (front ∷ rest) known) (rw vector (dec_query (normalize_radix radix)))

  printed-query :
      (shown : Radix) (radix : Str)
      → normalize_query_value_to_bits (print_normalized shown width (front ∷ rest)) width radix
        ≡ some (front ∷ rest)
  printed-query shown radix = rw (logic_front front known.0) (print_bits-query shown radix)

-- A vector's value whose bits are all known, in a width of at least 2, is printed in any radix to a
-- text that a query in any radix reads back as the same bits, so that the query finds the value.
pub format-query :
    (info : SignalInfo) (value shown asked : Str)
    → 2 ≤ info.width
    → AreBits (normalize_multibit_bits value info.width)
    → length (normalize_multibit_bits value info.width) ≡ info.width
    → (bits : Str) × (normalize_query_value_to_bits
          (format_multibit_value value info.width shown)
          info.width
          asked
        ≡ some bits)
      × (value_matches_query info value bits ≡ true)
unfolding format_multibit_value value_matches_query
format-query info value shown asked wide known exact =
    read_back (normalize_multibit_bits value info.width) refl known exact
  where
    read_back :
        (bs : Str)
        → normalize_multibit_bits value info.width ≡ bs
        → AreBits bs
        → length bs ≡ info.width
        → (bits : Str) × (normalize_query_value_to_bits
              (print_normalized
                (normalize_radix shown)
                info.width
                (normalize_multibit_bits value info.width))
              info.width
              asked
            ≡ some bits)
          × (value_matches_query info value bits ≡ true)
    read_back [] e k n = absurd (omega arith)
    read_back (b ∷ bs) e k n =
        let vector : leb info.width 1 ≡ false = ground arith in
        (
          b ∷ bs,
          rw e (printed-query info.width b bs wide k n (normalize_radix shown) asked),
          rw (vector, e) (str_eq_refl (b ∷ bs)),
        )
