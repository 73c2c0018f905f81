-- ===== src/Api/Values/Halving.antt =====
-- decimal_string_to_bits of AgentAPI.cpp: it ends, and gives the number's bits.
use mathlib.Core.Option
use mathlib.Core.List.{append-nil, append_assoc}
use auto_waveform_debugger.Base.{
  ℕ, zero, suc, ◌+◌, ◌-◌, ◌*◌, ◌^◌, ◌≤◌, ◌<◌, ◌≡◌, ◌≢◌, refl, ap, sym, ◌∙◌, Bool, true, false, not,
  ◌||◌, inl, inr, some, [], ◌∷◌, ◌++◌, Str, codes, str_eq, str_eq_iff, is_empty, arith, length,
  if◌then◌else◌, ◌==◌, reverse, Bool-cases,
}
use native.Mathlib.Nat.{pow-suc}
use auto_waveform_debugger.Api.Values.{
  halve_digits, halving_loop, all_digits, drop_zeros, decimal_string_to_bits,
}
use auto_waveform_debugger.Api.Values.Bits.{
  dec_value, bits_value, AreDigits, AreBits, low_value, bits_value-reverse, All-reverse,
  length-reverse,
}
use auto_waveform_debugger.Api.Values.Decimal.{IsCanonical, IsQuotient, halve_digits_value}

dec_value-ge : (acc : ℕ) (ds : Str) → acc ≤ dec_value acc ds
dec_value-ge acc [] = omega arith
dec_value-ge acc (d ∷ ds) = omega (arith, dec_value-ge (acc * 10 + (d - b'0')) ds)

-- The loop's test is that the number is zero.
abbrev is_zero : Str → Bool
is_zero decimal = is_empty decimal || str_eq decimal (codes "0")

is_zero-false : (ds : Str) → IsCanonical ds → is_zero ds ≡ false → 0 < dec_value 0 ds
is_zero-false [] h e = cc
is_zero-false (d ∷ ds) (inl above) e = omega (arith, dec_value-ge (0 * 10 + (d - b'0')) ds)
is_zero-false (d ∷ ds) (inr same) e = absurd (ground (arith, str_eq_iff (d ∷ ds) (codes "0")))

is_zero-true : (ds : Str) → is_zero ds ≡ true → dec_value 0 ds ≡ 0
is_zero-true [] e = refl
is_zero-true (d ∷ ds) e = ap (dec_value 0) ((str_eq_iff (d ∷ ds) (codes "0")).0 e)

-- The next round's digits.
abbrev or_zero : Str → Str
or_zero quotient = if is_empty quotient then codes "0" else quotient

or_zero_lem :
    (quotient : Str)
    → AreDigits quotient
    → IsQuotient quotient
    → AreDigits (or_zero quotient)
      × IsCanonical (or_zero quotient)
      × (dec_value 0 (or_zero quotient) ≡ dec_value 0 quotient)
or_zero_lem [] h k = (((omega arith, omega arith), tt), inr refl, refl)
or_zero_lem (d ∷ ds) h k = (h, inl k, refl)

-- What the loop adds to `bits` for a number: its bits, the lowest first, and no more than it has.
record Adds (fuel n : ℕ) (decimal bits : Str) : Type 0 where
  out : Str
  result : halving_loop (suc fuel) decimal bits ≡ some (bits ++ out)
  binary : AreBits out
  value : low_value out ≡ n
  short : (k : ℕ) → n < 2 ^ k → length out ≤ k

-- One bit more than half the number has.
one_longer :
    (n m c len : ℕ)
    → 0 < n
    → 2 * m + c ≡ n
    → ((k : ℕ) → m < 2 ^ k → len ≤ k)
    → (k : ℕ) → n < 2 ^ k
    → suc len ≤ k
one_longer n m c len pos e h zero b = absurd (omega arith)
one_longer n m c len pos e h (suc k) b = omega (arith, h k (omega (arith, pow-suc 2 k)))

halving_loop_done :
    (fuel : ℕ) (decimal bits : Str)
    → is_zero decimal ≡ true
    → Adds fuel (dec_value 0 decimal) decimal bits
unfolding halving_loop
halving_loop_done fuel decimal bits done = record {
  out = [];
  result = rw (done, append-nil) refl;
  binary = tt;
  value = sym (is_zero-true decimal done);
  short = λ k below. omega arith;
}

halving_loop_value :
    (fuel : ℕ) (decimal bits : Str)
    → AreDigits decimal
    → IsCanonical decimal
    → dec_value 0 decimal < 2 ^ fuel
    → Adds fuel (dec_value 0 decimal) decimal bits
unfolding halving_loop
halving_loop_value zero decimal bits h c bound = elim (Bool-cases (is_zero decimal)) [
  | inl done ↦ halving_loop_done zero decimal bits done
  | inr more ↦ absurd (omega (arith, is_zero-false decimal c more))
]
halving_loop_value (suc fuel) decimal bits h c bound = elim (Bool-cases (is_zero decimal)) [
  | inl done ↦ halving_loop_done (suc fuel) decimal bits done
  | inr more ↦
      let carry = (halve_digits decimal [] 0).1 in
      let quotient = (halve_digits decimal [] 0).0 in
      let (small, digits, leading, _, value) =
        halve_digits_value decimal [] 0 (omega arith) h tt tt in
      let (digits', canonical, same) = or_zero_lem quotient digits leading in
      let next =
        halving_loop_value fuel (or_zero quotient) (bits ++ (b'0' + carry) ∷ []) digits' canonical
          (omega (arith, pow-suc 2 fuel)) in
      record {
        out = (b'0' + carry) ∷ next.out;
        result = rw more (next.result ∙ ap some (append_assoc bits ((b'0' + carry) ∷ []) next.out));
        binary = ((omega arith, omega arith), next.binary);
        value = omega (arith, next.value);
        short =
            one_longer (dec_value 0 decimal) (dec_value 0 (or_zero quotient)) carry
              (length next.out) (is_zero-false decimal c more) (omega arith) next.short;
      }
]

pow_step : (n : ℕ) → 2 ^ (4 * suc n) ≡ 2 ^ (4 * n) * 16
pow_step n =
    let e : 4 * suc n ≡ suc (suc (suc (suc (4 * n)))) = omega arith in
    rw e (
      omega (
        arith,
        pow-suc 2 (suc (suc (suc (4 * n)))),
        pow-suc 2 (suc (suc (4 * n))),
        pow-suc 2 (suc (4 * n)),
        pow-suc 2 (4 * n),
      ))

-- n digits stand for a number of at most 4 * n bits.
dec_value-lt :
    (acc : ℕ) (ds : Str) → AreDigits ds → dec_value acc ds < (acc + 1) * 2 ^ (4 * length ds)
dec_value-lt acc [] h = omega arith
dec_value-lt acc (d ∷ ds) h =
    rw (pow_step (length ds)) (grind (arith, dec_value-lt (acc * 10 + (d - b'0')) ds h.1))

drop_zeros_lem :
    (s : Str)
    → AreDigits s
    → AreDigits (drop_zeros s)
      × IsQuotient (drop_zeros s)
      × (dec_value 0 (drop_zeros s) ≡ dec_value 0 s)
drop_zeros_lem [] h = (tt, tt, refl)
drop_zeros_lem (c ∷ s) h = elim (Bool-cases (c == b'0')) [
  | inl e ↦
      let (digits, leading, value) = drop_zeros_lem s h.1 in
      rw e (digits, leading, value ∙ ap (λ n. dec_value n s) (ground arith))
  | inr e ↦ rw e (h, ground arith, refl)
]

all_digits-AreDigits : (s : Str) → all_digits s ≡ true → AreDigits s
all_digits-AreDigits [] h = tt
all_digits-AreDigits (c ∷ s) h =
    ((ground arith, ground arith), all_digits-AreDigits s (ground arith))

abbrev pub Parsed : Str → Str → Type 0
Parsed digits bits =
    (decimal_string_to_bits digits ≡ some bits)
    × AreBits bits
    × (bits ≢ [])
    × (bits_value 0 bits ≡ dec_value 0 digits)
    × ((k : ℕ) → 0 < k → dec_value 0 digits < 2 ^ k → length bits ≤ k)

-- After the tests, on the digits without leading zeros.
significant_bits :
    (digits significant : Str)
    → (is_empty digits || not (all_digits digits)) ≡ false
    → drop_zeros digits ≡ significant
    → AreDigits significant
    → IsQuotient significant
    → dec_value 0 significant ≡ dec_value 0 digits
    → (bits : Str) × Parsed digits bits
unfolding decimal_string_to_bits
significant_bits digits [] test e h k v = (
  codes "0",
  (rw (test, e) refl, ((omega arith, omega arith), tt), (λ b. cc), v, λ n pos below. omega arith),
)
significant_bits digits (d ∷ ds) test e h k v =
    let adds =
      halving_loop_value (4 * length (d ∷ ds)) (d ∷ ds) [] h (inl k)
        (omega (arith, dec_value-lt 0 (d ∷ ds) h)) in
    let positive : 0 < dec_value 0 (d ∷ ds) =
      omega (arith, dec_value-ge (0 * 10 + (d - b'0')) ds) in
    (
      reverse adds.out,
      (
        rw (test, e) (ap (Option.map reverse) adds.result),
        All-reverse _ adds.out adds.binary,
        (λ b. not_empty adds.out (omega (arith, adds.value)) b),
        (bits_value-reverse adds.out ∙ adds.value ∙ v),
        λ n pos below. omega (arith, length-reverse adds.out, adds.short n (omega arith)),
      ),
    )
  where
    not_empty : (out : Str) → 0 < low_value out → reverse out ≢ []
    not_empty [] p e = absurd (omega arith)
    not_empty (b ∷ bs) p e = absurd (omega (arith, length-reverse (b ∷ bs), ap length e))

-- A text of decimal digits is parsed, on the fuel that is given, to bits that stand for its number
-- and are no more than the number has (but one for zero).
pub decimal_string_to_bits_value :
    (digits : Str) → digits ≢ [] → all_digits digits ≡ true → (bits : Str) × Parsed digits bits
decimal_string_to_bits_value [] ne h = absurd (ne refl)
decimal_string_to_bits_value (d ∷ ds) ne h =
    let (digits, leading, value) = drop_zeros_lem (d ∷ ds) (all_digits-AreDigits (d ∷ ds) h) in
    significant_bits (d ∷ ds) (drop_zeros (d ∷ ds)) (rw h) refl digits leading value
