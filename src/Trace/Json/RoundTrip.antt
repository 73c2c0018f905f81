-- ===== src/Trace/Json/RoundTrip.antt =====
-- A JSON reader reads what JsonEscape writes between quotes.
use mathlib.Core.List.{append_assoc}
use auto_waveform_debugger.Base.{
  ℕ, ◌+◌, ◌-◌, ◌*◌, ◌/◌, ◌%◌, ◌<◌, ◌≡◌, refl, ap, ◌∙◌, false, ◌&&◌, Option, none, some, [], ◌∷◌,
  ◌++◌, Str, if◌then◌else◌, ltb, leb, ◌==◌, arith, Bool-cases, inl, inr, ==_iff, ltb→lt,
}
use auto_waveform_debugger.Trace.Json.{hex_digit, escape_char, json_escape}

-- Where a reader of a JSON string (RFC 8259) stands: between characters, behind a backslash, or
-- within the four digits of an escape, with those that are left and the value of those before.
pub data Place : Type 0 where
  plain : Place
  escaped : Place
  digits : ℕ → ℕ → Place

abbrev pub escape_value : ℕ → Option ℕ
escape_value c =
    if c == b'"'
    then some b'"'
    else if c == b'\\'
    then some b'\\'
    else if c == b'/'
    then some b'/'
    else if c == b'b'
    then some 8
    else if c == b'f'
    then some 12
    else if c == b'n'
    then some 10
    else if c == b'r'
    then some 13
    else if c == b't'
    then some 9
    else none

abbrev pub hex_value : ℕ → Option ℕ
hex_value c =
    if leb b'0' c && leb c b'9'
    then some (c - b'0')
    else if leb b'a' c && leb c b'f'
    then some (c - b'a' + 10)
    else if leb b'A' c && leb c b'F'
    then some (c - b'A' + 10)
    else none

abbrev pub cons_char : ℕ → Option (Str × Str) → Option (Str × Str)
cons_char c none = none
cons_char c (some (s, rest)) = some (c ∷ s, rest)

-- The string up to its closing quote, and the text behind that.
unfoldable pub read_string : Place → Str → Option (Str × Str)
read_string place [] = none
read_string plain (c ∷ s) =
    if c == b'"'
    then some ([], s)
    else if c == b'\\'
    then read_string escaped s
    else if ltb c 32
    then none
    else cons_char c (read_string plain s)
read_string escaped (c ∷ s) =
    if c == b'u'
    then read_string (digits 4 0) s
    else elim (escape_value c) [ none ↦ none | some v ↦ cons_char v (read_string plain s) ]
read_string (digits left value) (c ∷ s) = elim (hex_value c) [
  | none ↦ none
  | some h ↦
      if leb left 1
      then cons_char (16 * value + h) (read_string plain s)
      else read_string (digits (left - 1) (16 * value + h)) s
]

hex_value-hex_digit : (n : ℕ) → n < 16 → hex_value (hex_digit n) ≡ some n
hex_value-hex_digit n h = ground arith

read_escaped :
    (c v : ℕ) (s : Str)
    → (c == b'u') ≡ false
    → escape_value c ≡ some v
    → read_string plain (b'\\' ∷ c ∷ s) ≡ cons_char v (read_string plain s)
unfolding read_string
read_escaped c v s other e = rw (other, e) refl

read_control :
    (c : ℕ) (s : Str)
    → c < 32
    → read_string plain
        (b'\\' ∷ b'u' ∷ b'0' ∷ b'0' ∷ hex_digit (c / 16 % 16) ∷ hex_digit (c % 16) ∷ s)
      ≡ cons_char c (read_string plain s)
unfolding read_string
read_control c s h =
    let value : 16 * (0 + c / 16 % 16) + c % 16 ≡ c = omega arith in
    rw
      (
        hex_value-hex_digit (c / 16 % 16) (omega arith),
        hex_value-hex_digit (c % 16) (omega arith),
        value,
      )
      refl

read_plain :
    (c : ℕ) (s : Str)
    → (c == b'"') ≡ false
    → (c == b'\\') ≡ false
    → ltb c 32 ≡ false
    → read_string plain (c ∷ s) ≡ cons_char c (read_string plain s)
unfolding read_string
read_plain c s quote slash control = rw (quote, slash, control) refl

read_string-escape_char :
    (c : ℕ) (s : Str) → read_string plain (escape_char c ++ s) ≡ cons_char c (read_string plain s)
unfolding escape_char
read_string-escape_char c s = elim (Bool-cases (c == b'\\')) [
  | inl e ↦ rw ((==_iff c b'\\').0 e) (read_escaped b'\\' b'\\' s refl refl)
  | inr slash ↦ elim (Bool-cases (c == b'"')) [
    | inl e ↦ rw ((==_iff c b'"').0 e) (read_escaped b'"' b'"' s refl refl)
    | inr quote ↦ elim (Bool-cases (c == 10)) [
      | inl e ↦ rw ((==_iff c 10).0 e) (read_escaped b'n' 10 s refl refl)
      | inr line ↦ elim (Bool-cases (c == 13)) [
        | inl e ↦ rw ((==_iff c 13).0 e) (read_escaped b'r' 13 s refl refl)
        | inr feed ↦ elim (Bool-cases (c == 9)) [
          | inl e ↦ rw ((==_iff c 9).0 e) (read_escaped b't' 9 s refl refl)
          | inr tab ↦ elim (Bool-cases (ltb c 32)) [
            | inl e ↦ rw (slash, quote, line, feed, tab, e) (read_control c s (ltb→lt c 32 e))
            | inr e ↦ rw (slash, quote, line, feed, tab, e) (read_plain c s quote slash e)
          ]
        ]
      ]
    ]
  ]
]

-- A reader of JSON that stands behind the opening quote of an escaped text reads the text, whatever
-- characters it has, up to the closing quote.
pub read_string-json_escape :
    (s rest : Str) → read_string plain (json_escape s ++ b'"' ∷ rest) ≡ some (s, rest)
unfolding json_escape
read_string-json_escape [] rest = unfold read_string in refl
read_string-json_escape (c ∷ s) rest =
    ap (read_string plain) (append_assoc (escape_char c) (json_escape s) (b'"' ∷ rest))
    ∙ read_string-escape_char c (json_escape s ++ b'"' ∷ rest)
    ∙ ap (cons_char c) (read_string-json_escape s rest)
