-- ===== src/Trace/Select/Bits.antt =====
-- A bit range that is printed is read back.
use auto_waveform_debugger.Base.{
  ℕ, ◌+◌, ◌^◌, ◌≤◌, ◌<◌, ◌≡◌, refl, sym, ap, ◌∙◌, Bool, true, false, not, ◌||◌, Option, some, [],
  ◌∷◌, ◌++◌, Str, arith, length, length-append, last?, if◌then◌else◌, ◌==◌, Bool-cases, inl, inr,
}
use auto_waveform_debugger.Base.Text.{has_char, before_char, is_digit}
use mathlib.Core.List.{append_assoc}
use auto_waveform_debugger.Trace.Number.{
  to_string, are_digits, to_string_shape, to_string-are_digits, leading_digits-to_string,
}
use auto_waveform_debugger.Trace.Number.Integer.{ℤ, pos, negsuc, integer_text, same_integer}
use auto_waveform_debugger.Trace.Select.{
  digits_value, to_int32, from_chars, Axis, after_char, parse_bounds, format_bit_range, but_last,
  parse_exact_bit_map_text, parse_signed, parse_signed_axis,
}

-- The numbers of an int32_t.
abbrev pub IsInt32 : ℤ → Type 0
IsInt32 (pos n) = n < 2 ^ 31
IsInt32 (negsuc n) = n < 2 ^ 31

digits_value-to_string : (n : ℕ) → digits_value (to_string n) ≡ some n
digits_value-to_string n = rw (to_string-are_digits n) (leading_digits-to_string n)

from_chars-digits :
    (c : ℕ) (s : Str)
    → is_digit c ≡ true
    → from_chars (c ∷ s) ≡ to_int32 false (digits_value (c ∷ s))
unfolding from_chars
from_chars-digits c s h = ground arith

from_chars-minus : (s : Str) → from_chars (b'-' ∷ s) ≡ to_int32 true (digits_value s)
unfolding from_chars
from_chars-minus s = refl

pub from_chars-integer_text : (z : ℤ) → IsInt32 z → from_chars (integer_text z) ≡ some z
from_chars-integer_text (pos n) h =
    let (c, s, shape, first, others) = to_string_shape n in
    ap from_chars shape
    ∙ from_chars-digits c s first
    ∙ ap (λ t. to_int32 false (digits_value t)) (sym shape)
    ∙ ap (to_int32 false) (digits_value-to_string n)
    ∙ ground arith
from_chars-integer_text (negsuc n) h =
    from_chars-minus (to_string (n + 1))
    ∙ ap (to_int32 true) (digits_value-to_string (n + 1))
    ∙ ground arith

-- A text that starts with a digit or a minus sign.
starts_number :
    (z : ℤ) → (c : ℕ) × (s : Str) × (integer_text z ≡ c ∷ s) × ((is_digit c || c == b'-') ≡ true)
starts_number (pos n) =
    let (c, s, shape, first, others) = to_string_shape n in (c, s, shape, ground (arith, first))
starts_number (negsuc n) = (b'-', to_string (n + 1), refl, refl)

parse_signed-from_chars :
    (c : ℕ) (s : Str) → (is_digit c || c == b'-') ≡ true → parse_signed (c ∷ s) ≡ from_chars (c ∷ s)
unfolding parse_signed
parse_signed-from_chars c [] h = ground arith
parse_signed-from_chars c (d ∷ s) h = ground arith

pub parse_signed-integer_text : (z : ℤ) → IsInt32 z → parse_signed (integer_text z) ≡ some z
parse_signed-integer_text z h =
    let (c, s, shape, first) = starts_number z in
    ap parse_signed shape
    ∙ parse_signed-from_chars c s first
    ∙ ap from_chars (sym shape)
    ∙ from_chars-integer_text z h

-- A character that stands in no number.
abbrev pub is_mark : ℕ → Bool
is_mark k = not (is_digit k || k == b'-')

has_char-digits : (k : ℕ) (s : Str) → is_mark k ≡ true → are_digits s ≡ true → has_char k s ≡ false
has_char-digits k [] m h = refl
has_char-digits k (c ∷ s) m h = ground (arith, has_char-digits k s m)

pub has_char-integer_text : (k : ℕ) (z : ℤ) → is_mark k ≡ true → has_char k (integer_text z) ≡ false
has_char-integer_text k (pos n) m = has_char-digits k (to_string n) m (to_string-are_digits n)
has_char-integer_text k (negsuc n) m =
    ground (arith, has_char-digits k (to_string (n + 1)) m (to_string-are_digits (n + 1)))

pub has_char-append : (k : ℕ) (s t : Str) → has_char k (s ++ t) ≡ (has_char k s || has_char k t)
has_char-append k [] t = refl
has_char-append k (c ∷ s) t = ground (arith, has_char-append k s t)

pub before_char-append : (k : ℕ) (s t : Str) → has_char k s ≡ false → before_char k (s ++ k ∷ t) ≡ s
before_char-append k [] t h = ground arith
before_char-append k (c ∷ s) t h = ground (arith, before_char-append k s t)

pub after_char-append : (k : ℕ) (s t : Str) → has_char k s ≡ false → after_char k (s ++ k ∷ t) ≡ t
unfolding after_char
after_char-append k [] t h = ground arith
after_char-append k (c ∷ s) t h = ground (arith, after_char-append k s t)

-- What stands between the brackets.
abbrev pub inside_text : Axis → Str
inside_text (hi, lo) =
    if same_integer hi lo then integer_text hi else integer_text hi ++ b':' ∷ integer_text lo

same_integer-eq : (a b : ℤ) → same_integer a b ≡ true → a ≡ b
same_integer-eq (pos m) (pos n) h = ground arith
same_integer-eq (pos m) (negsuc n) h = cc
same_integer-eq (negsuc m) (pos n) h = cc
same_integer-eq (negsuc m) (negsuc n) h = ground arith

pub format_bit_range_lem :
    (axis : Axis) → format_bit_range axis ≡ b'[' ∷ (inside_text axis ++ b']' ∷ [])
unfolding format_bit_range
format_bit_range_lem (hi, lo) = elim (Bool-cases (same_integer hi lo)) [
  | inl same ↦ rw same refl
  | inr other ↦ rw other (
      ap (λ t. b'[' ∷ t)
        (sym (append_assoc (integer_text hi) (b':' ∷ integer_text lo) (b']' ∷ []))))
]

abbrev pub IsAxis : Axis → Type 0
IsAxis axis = IsInt32 axis.0 × IsInt32 axis.1

-- A reader of integers reads the text between the brackets.
pub parse_bounds_lem :
    (parse : Str → Option ℤ) (axis : Axis)
    → ((z : ℤ) → IsInt32 z → parse (integer_text z) ≡ some z)
    → IsAxis axis
    → parse_bounds parse (inside_text axis) ≡ some axis
parse_bounds_lem parse (hi, lo) reads h = elim (Bool-cases (same_integer hi lo)) [
  | inl same ↦ rw same (
      rw (has_char-integer_text b':' hi refl)
        (rw (reads hi h.0) (ap (λ z. some (hi, z)) (same_integer-eq hi lo same))))
  | inr other ↦ rw other (
      let no_colon = has_char-integer_text b':' hi refl in
      let colon : has_char b':' (integer_text hi ++ b':' ∷ integer_text lo) ≡ true =
        has_char-append b':' (integer_text hi) (b':' ∷ integer_text lo) ∙ rw no_colon refl in
      rw colon (
        rw
          (
            before_char-append b':' (integer_text hi) (integer_text lo) no_colon,
            after_char-append b':' (integer_text hi) (integer_text lo) no_colon,
          )
          (rw (reads hi h.0, reads lo h.1) refl)))
]

but_last-append : (s : Str) (c : ℕ) → but_last (s ++ c ∷ []) ≡ s
unfolding but_last
but_last-append [] c = refl
but_last-append (d ∷ []) c = refl
but_last-append (d ∷ e ∷ s) c = ap (λ t. d ∷ t) (but_last-append (e ∷ s) c)

last?-append : (s : Str) (c : ℕ) → last? (s ++ c ∷ []) ≡ some c
last?-append [] c = refl
last?-append (d ∷ []) c = refl
last?-append (d ∷ e ∷ s) c = last?-append (e ∷ s) c

parse_between :
    (s : Str)
    → 1 ≤ length s
    → parse_exact_bit_map_text (b'[' ∷ (s ++ b']' ∷ [])) ≡ parse_bounds from_chars s
unfolding parse_exact_bit_map_text
parse_between [] h = absurd (omega arith)
parse_between (c ∷ s) h =
    rw (last?-append (c ∷ s) b']', but_last-append (c ∷ s) b']')
      (ground (arith, length-append {0} s (b']' ∷ [])))

inside_text-not_empty : (axis : Axis) → 1 ≤ length (inside_text axis)
inside_text-not_empty (hi, lo) =
    let (c, s, shape, first) = starts_number hi in
    elim (Bool-cases (same_integer hi lo)) [
      | inl same ↦ rw same (rw shape (omega arith))
      | inr other ↦ rw other (rw shape (omega arith))
    ]

-- A range of 32-bit numbers that FormatBitRange prints is read back by ParseExactBitMapText, and the
-- text between its brackets by ParseSignedAxis.
pub format_bit_range-read :
    (axis : Axis)
    → IsAxis axis
    → (parse_exact_bit_map_text (format_bit_range axis) ≡ some axis)
      × (inside : Str) × (format_bit_range axis ≡ b'[' ∷ (inside ++ b']' ∷ []))
      × (parse_signed_axis inside ≡ some axis)
unfolding parse_signed_axis
format_bit_range-read axis h = (
  ap parse_exact_bit_map_text (format_bit_range_lem axis)
      ∙ parse_between (inside_text axis) (inside_text-not_empty axis)
      ∙ parse_bounds_lem from_chars axis from_chars-integer_text h,
  inside_text axis,
  format_bit_range_lem axis,
  parse_bounds_lem parse_signed axis parse_signed-integer_text h,
)
