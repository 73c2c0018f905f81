-- ===== src/Trace/Json.antt =====
-- JsonEscape of db/GraphDb.cc.
pub mod RoundTrip
use auto_waveform_debugger.Base.{
  ℕ, ◌+◌, ◌-◌, ◌/◌, ◌%◌, List, [], ◌∷◌, ◌++◌, Str, codes, if◌then◌else◌, ltb, ◌==◌,
}

-- hex[n] of "0123456789abcdef"
abbrev pub hex_digit : ℕ → ℕ
hex_digit n = if ltb n 10 then b'0' + n else b'a' + (n - 10)

unfoldable pub escape_char : ℕ → Str
escape_char c =
    if c == b'\\'
    then codes "\\\\"
    else if c == b'"'
    then codes "\\\""
    else if c == 10
    then codes "\\n"
    else if c == 13
    then codes "\\r"
    else if c == 9
    then codes "\\t"
    else if ltb c 32
    then codes "\\u00" ++ (hex_digit (c / 16 % 16) ∷ hex_digit (c % 16) ∷ [])
    else c ∷ []

unfoldable pub json_escape : Str → Str
unfolding escape_char
json_escape [] = []
json_escape (c ∷ s) = escape_char c ++ json_escape s
