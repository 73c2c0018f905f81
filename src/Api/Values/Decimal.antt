-- ===== src/Api/Values/Decimal.antt =====
-- The decimal arithmetic of AgentAPI.cpp: bits to decimal digits and back.
use auto_waveform_debugger.Base.{
  ℕ, zero, suc, ◌+◌, ◌-◌, ◌*◌, ◌/◌, ◌%◌, ◌≤◌, ◌<◌, ◌≡◌, ◌≢◌, refl, ap, ◌∙◌, false, not, ◌||◌, ◌⊎◌,
  [], ◌∷◌, ◌++◌, Str, codes, is_empty, arith, length, length-append, if◌then◌else◌, ltb, ◌==◌,
}
use native.Mathlib.Nat.{zero-add}
use auto_waveform_debugger.Api.Values.{
  double_digits, push_bit, push_bits, binary_bits_to_decimal, halve_digits,
}
use auto_waveform_debugger.Api.Values.Bits.{
  dec_value, bits_value, AreDigits, AreBits, dec_value-append, All-append,
}

-- Doubling digits and adding a carry, with the carry in front of the digits that it leaves.
double_digits_value :
    (ds : Str) (carry acc : ℕ)
    → carry ≤ 1
    → AreDigits ds
    → ((double_digits ds carry).0 ≤ 1)
      × AreDigits (double_digits ds carry).1
      × (dec_value (2 * acc + (double_digits ds carry).0) (double_digits ds carry).1
          ≡ 2 * dec_value acc ds + carry)
unfolding double_digits
double_digits_value [] carry acc small h = (small, tt, refl)
double_digits_value (d ∷ ds) carry acc small h =
    let (fits, digits, value) = double_digits_value ds carry (acc * 10 + (d - b'0')) small h.1 in
    (
      omega arith,
      ((omega arith, omega arith), digits),
      ap (λ n. dec_value n (double_digits ds carry).1)
            (let c = (double_digits ds carry).0 in
              let e : (2 * acc + ((d - b'0') * 2 + c) / 10) * 10
                    + ((b'0' + ((d - b'0') * 2 + c) % 10) - b'0')
                  ≡ 2 * (acc * 10 + (d - b'0')) + c =
                omega arith in
              e)
          ∙ value,
    )

-- A carry that is left becomes a digit.
push_carry :
    (c : ℕ) (digits : Str) (n : ℕ)
    → c ≤ 1
    → AreDigits digits
    → dec_value c digits ≡ n
    → AreDigits (if ltb 0 c then (b'0' + c) ∷ digits else digits)
      × (dec_value 0 (if ltb 0 c then (b'0' + c) ∷ digits else digits) ≡ n)
push_carry zero digits n small h e = (h, e)
push_carry (suc zero) digits n small h e = ((omega arith, h), e)
push_carry (suc (suc c)) digits n small h e = absurd (omega arith)

pub push_bit_value :
    (decimal : Str) (bit : ℕ)
    → AreDigits decimal
    → (b'0' ≤ bit) × (bit ≤ b'1')
    → AreDigits (push_bit decimal bit)
      × (dec_value 0 (push_bit decimal bit) ≡ dec_value 0 decimal * 2 + (bit - b'0'))
unfolding push_bit
push_bit_value decimal bit h k =
    push_carry (double_digits decimal (if bit == b'1' then 1 else 0)).0
      (double_digits decimal (if bit == b'1' then 1 else 0)).1 _ doubled.0 doubled.1
      (rw (zero-add) at doubled.2 ∙ (ground arith))
  where
    doubled :
        ((double_digits decimal (if bit == b'1' then 1 else 0)).0 ≤ 1)
        × AreDigits (double_digits decimal (if bit == b'1' then 1 else 0)).1
        × (dec_value
              (0 + (double_digits decimal (if bit == b'1' then 1 else 0)).0)
              (double_digits decimal (if bit == b'1' then 1 else 0)).1
            ≡ 2 * dec_value 0 decimal + (if bit == b'1' then 1 else 0))
    doubled = double_digits_value decimal (if bit == b'1' then 1 else 0) 0 (ground arith) h

pub push_bits_value :
    (decimal bits : Str)
    → AreDigits decimal
    → AreBits bits
    → AreDigits (push_bits decimal bits)
      × (dec_value 0 (push_bits decimal bits) ≡ bits_value (dec_value 0 decimal) bits)
unfolding push_bits
push_bits_value decimal [] h k = (h, refl)
push_bits_value decimal (bit ∷ bits) h k =
    let pushed = push_bit_value decimal bit h k.0 in
    let (digits, value) = push_bits_value (push_bit decimal bit) bits pushed.0 k.1 in
    (digits, value ∙ ap (λ n. bits_value n bits) (pushed.1))

push_bit-ne_nil : (decimal : Str) (bit : ℕ) → decimal ≢ [] → push_bit decimal bit ≢ []
unfolding push_bit
push_bit-ne_nil [] bit ne e = ne refl
push_bit-ne_nil (d ∷ ds) bit ne e = ground arith

push_bits-ne_nil : (decimal bits : Str) → decimal ≢ [] → push_bits decimal bits ≢ []
unfolding push_bits
push_bits-ne_nil decimal [] ne = ne
push_bits-ne_nil decimal (bit ∷ bits) ne =
    push_bits-ne_nil (push_bit decimal bit) bits (push_bit-ne_nil decimal bit ne)

pub binary_bits_to_decimal-ne_nil : (bits : Str) → binary_bits_to_decimal bits ≢ []
unfolding binary_bits_to_decimal
binary_bits_to_decimal-ne_nil bits = push_bits-ne_nil (codes "0") bits (λ e. cc)

-- The decimal text of bits has only digits, and stands for the number that the bits stand for.
pub binary_bits_to_decimal_value :
    (bits : Str)
    → AreBits bits
    → AreDigits (binary_bits_to_decimal bits)
      × (dec_value 0 (binary_bits_to_decimal bits) ≡ bits_value 0 bits)
unfolding binary_bits_to_decimal
binary_bits_to_decimal_value bits h =
    push_bits_value (codes "0") bits ((omega arith, omega arith), tt) h

-- No leading zero: such a text is "0", or begins with another digit, or is empty.
abbrev pub IsCanonical : Str → Type 0
IsCanonical [] = Unit
IsCanonical (d ∷ ds) = (b'0' < d) ⊎ (d ∷ ds ≡ codes "0")

-- The quotient so far: it is empty, or begins with a digit above zero.
abbrev pub IsQuotient : Str → Type 0
IsQuotient [] = Unit
IsQuotient (d ∷ ds) = b'0' < d

-- The next digit of a quotient.
abbrev next_quotient : Str → ℕ → Str
next_quotient quotient q =
    if not (is_empty quotient) || not (q == 0) then quotient ++ (b'0' + q) ∷ [] else quotient

next_quotient_lem :
    (quotient : Str) (q : ℕ)
    → q ≤ 9
    → AreDigits quotient
    → IsQuotient quotient
    → AreDigits (next_quotient quotient q)
      × IsQuotient (next_quotient quotient q)
      × (length (next_quotient quotient q) ≤ length quotient + 1)
      × (dec_value 0 (next_quotient quotient q) ≡ dec_value 0 quotient * 10 + q)
next_quotient_lem [] zero small h k = (tt, tt, omega arith, refl)
next_quotient_lem [] (suc q) small h k =
    let e : (suc q == 0) ≡ false = ground arith in
    rw e (((omega arith, omega arith), tt), omega arith, omega arith, omega arith)
next_quotient_lem (d ∷ ds) q small h k = (
  All-append _ (d ∷ ds) ((b'0' + q) ∷ []) h ((omega arith, omega arith), tt),
  k,
  omega (arith, length-append ds ((b'0' + q) ∷ [])),
  omega (arith, dec_value-append 0 (d ∷ ds) (b'0' + q)),
)

pub halve_digits_value :
    (decimal quotient : Str) (carry : ℕ)
    → carry ≤ 1
    → AreDigits decimal
    → AreDigits quotient
    → IsQuotient quotient
    → let r = halve_digits decimal quotient carry in
      (r.1 ≤ 1)
      × AreDigits r.0
      × IsQuotient r.0
      × (length r.0 ≤ length quotient + length decimal)
      × (2 * dec_value 0 r.0 + r.1 ≡ dec_value (2 * dec_value 0 quotient + carry) decimal)
unfolding halve_digits
halve_digits_value [] quotient carry small h k l = (small, k, l, omega arith, refl)
halve_digits_value (ch ∷ decimal) quotient carry small h k l =
    let cur = carry * 10 + (ch - b'0') in
    let (d, q, n, v) = next_quotient_lem quotient (cur / 2) (omega arith) k l in
    let (s, d', q', n', v') =
      halve_digits_value decimal (next_quotient quotient (cur / 2)) (cur % 2) (omega arith) h.1 d
        q in
    (
      s,
      d',
      q',
      omega arith,
      v'
          ∙ ap (λ m. dec_value m decimal)
              (let e : 2 * dec_value 0 (next_quotient quotient (cur / 2)) + cur % 2
                    ≡ (2 * dec_value 0 quotient + carry) * 10 + (ch - b'0') =
                  omega arith in
                e),
    )
