-- ===== src/Trace/Number.antt =====
-- Numbers as texts: std::to_string, and ParseUnsignedCliValue of db/GraphDb.cc.
pub mod Integer
use auto_waveform_debugger.Base.{
  ℕ, zero, suc, ◌+◌, ◌/◌, ◌%◌, ◌<◌, ◌≡◌, refl, ap, sym, ◌∙◌, Bool, true, ◌&&◌, Option, none, some,
  [], ◌∷◌, Str, if◌then◌else◌, ltb, ◌==◌, arith, Bool-cases, inl, inr, word64,
}
use auto_waveform_debugger.Base.Text.{is_digit}
use auto_waveform_debugger.Base.Scan.{drop_spaces, leading_digits, stoull}

abbrev digit : ℕ → ℕ
digit n = b'0' + n % 10

unfoldable to_string_from : ℕ → ℕ → Str → Str
to_string_from zero n digits = digits
to_string_from (suc fuel) n digits =
    let more = to_string_from fuel (n / 10) (digit n ∷ digits) in
    if ltb n 10 then digit n ∷ digits else more

unfoldable pub to_string : ℕ → Str
unfolding to_string_from
to_string n = to_string_from (suc n) n []

abbrev pub are_digits : Str → Bool
are_digits [] = true
are_digits (c ∷ s) = is_digit c && are_digits s

abbrev unsigned : Str → Str
unsigned [] = []
unsigned (c ∷ s) = if c == b'-' then s else if c == b'+' then s else c ∷ s

-- The number, if std::stoull accepts the text and reads it to its end.
unfoldable pub parse_unsigned_cli_value : Str → Option ℕ
unfolding stoull
parse_unsigned_cli_value value =
    if are_digits (unsigned (drop_spaces value)) then stoull value else none

leading_digits-to_string_from :
    (fuel n : ℕ) (digits : Str)
    → n < fuel
    → leading_digits none (to_string_from fuel n digits) ≡ leading_digits (some n) digits
unfolding to_string_from
leading_digits-to_string_from zero n digits h = absurd (omega arith)
leading_digits-to_string_from (suc fuel) n digits h = elim (Bool-cases (ltb n 10)) [
  | inl small ↦ rw small (unfold leading_digits in ground arith)
  | inr large ↦ rw large (
      leading_digits-to_string_from fuel (n / 10) (digit n ∷ digits) (ground arith)
      ∙ (unfold leading_digits in ground arith))
]

-- What is printed starts with a digit, and has only digits.
to_string_from_shape :
    (fuel n : ℕ) (digits : Str)
    → n < fuel
    → are_digits digits ≡ true
    → (c : ℕ) × (s : Str) × (to_string_from fuel n digits ≡ c ∷ s)
      × (is_digit c ≡ true)
      × (are_digits s ≡ true)
unfolding to_string_from
to_string_from_shape zero n digits h k = absurd (omega arith)
to_string_from_shape (suc fuel) n digits h k = elim (Bool-cases (ltb n 10)) [
  | inl small ↦ rw small (digit n, digits, refl, ground arith, k)
  | inr large ↦
      rw large (to_string_from_shape fuel (n / 10) (digit n ∷ digits) (ground arith) (ground arith))
]

read_digits :
    (c : ℕ) (s : Str) (n : ℕ)
    → is_digit c ≡ true
    → are_digits s ≡ true
    → n < word64
    → leading_digits none (c ∷ s) ≡ some n
    → parse_unsigned_cli_value (c ∷ s) ≡ some n
unfolding parse_unsigned_cli_value stoull
read_digits c s n first others small value = ground arith

pub leading_digits-to_string : (n : ℕ) → leading_digits none (to_string n) ≡ some n
unfolding to_string leading_digits
leading_digits-to_string n = leading_digits-to_string_from (suc n) n [] (omega arith)

pub to_string_shape :
    (n : ℕ)
    → (c : ℕ) × (s : Str) × (to_string n ≡ c ∷ s) × (is_digit c ≡ true) × (are_digits s ≡ true)
unfolding to_string
to_string_shape n = to_string_from_shape (suc n) n [] (omega arith) refl

-- A printed number is read back.
pub parse_unsigned_cli_value-to_string :
    (n : ℕ) → n < word64 → parse_unsigned_cli_value (to_string n) ≡ some n
parse_unsigned_cli_value-to_string n h =
    let (c, s, shape, first, others) = to_string_shape n in
    ap parse_unsigned_cli_value shape
    ∙ read_digits c s n first others h
        (ap (leading_digits none) (sym shape) ∙ leading_digits-to_string n)

pub to_string-injective : (m n : ℕ) → to_string m ≡ to_string n → m ≡ n
to_string-injective m n e =
    cc (ap (leading_digits none) e, leading_digits-to_string m, leading_digits-to_string n)

pub to_string-are_digits : (n : ℕ) → are_digits (to_string n) ≡ true
to_string-are_digits n =
    let (c, s, shape, first, others) = to_string_shape n in
    ap are_digits shape ∙ ground (arith, first, others)
