-- ===== src/Api/Values.antt =====
-- The values of AgentAPI.cpp: normalising what a file or a query says, and printing it. A char is
-- its code; the bits of a vector are the characters '0', '1', 'x' and 'z', the highest first.
pub mod Decimal
pub mod Halving
pub mod Bits
use auto_waveform_debugger.Base.{
  ℕ, zero, suc, ◌+◌, ◌-◌, ◌*◌, ◌/◌, ◌%◌, ◌≡◌, Bool, true, false, not, ◌&&◌, ◌||◌, List, [], ◌∷◌,
  ◌++◌, Str, codes, str_eq, if◌then◌else◌, ltb, leb, ◌==◌, is_empty, length, drop, take, replicate,
  reverse, max, Option, none, some,
}
use mathlib.Core.Option
use auto_waveform_debugger.Base.Text.{to_lower, lowercase, is_digit}
use auto_waveform_debugger.Wave.Signal.{SignalInfo}

unfoldable pub normalize_logic_char : ℕ → ℕ
normalize_logic_char ch =
    let c = to_lower ch in
    if c == b'0' then b'0' else if c == b'1' then b'1' else if c == b'z' then b'z' else b'x'

abbrev pub is_scalar : Str → Bool
is_scalar v =
    str_eq v (codes "0") || (str_eq v (codes "1") || (str_eq v (codes "x") || str_eq v (codes "z")))

unfoldable pub simplify_scalar_value : Str → Str
simplify_scalar_value [] = codes "x"
simplify_scalar_value (front ∷ rest) =
    if is_scalar (front ∷ rest)
    then front ∷ rest
    else if str_eq (front ∷ rest) (codes "U") || str_eq (front ∷ rest) (codes "u")
    then codes "x"
    else (let ch = to_lower front in
        if ch == b'0' || (ch == b'1' || (ch == b'x' || ch == b'z')) then ch ∷ [] else codes "x")

pub data Radix : Type 0 where
  hex bin dec : Radix

-- The function returns "hex", "bin" or "dec".
unfoldable pub normalize_radix : Str → Radix
normalize_radix radix =
    let normalized = lowercase radix in
    if str_eq normalized (codes "bin")
      || (str_eq normalized (codes "binary") || str_eq normalized (codes "2"))
    then bin
    else if str_eq normalized (codes "dec")
        || (str_eq normalized (codes "decimal") || str_eq normalized (codes "10"))
    then dec
    else hex

abbrev pub hex_digits : ℕ → ℕ
hex_digits width = max 1 ((width + 3) / 4)

abbrev pub bit_digits : ℕ → ℕ
bit_digits width = max 1 width

-- if (bits.size() < n) bits.insert(bits.begin(), n - bits.size(), '0')
unfoldable pub pad_zeros : ℕ → Str → Str
pad_zeros n bits = if ltb (length bits) n then replicate (n - length bits) b'0' ++ bits else bits

-- if (bits.size() > n) bits = bits.substr(bits.size() - n)
unfoldable pub keep_low : ℕ → Str → Str
keep_low n bits = if ltb n (length bits) then drop (length bits - n) bits else bits

-- The four characters for one hexadecimal digit; `n` is its value.
abbrev bit_char : ℕ → ℕ
bit_char n = if n == 0 then b'0' else b'1'

abbrev pub nibble_bits : ℕ → Str
nibble_bits n =
    bit_char (n / 8 % 2) ∷ bit_char (n / 4 % 2) ∷ bit_char (n / 2 % 2) ∷ bit_char (n % 2) ∷ []

unfoldable pub nibble_of_hex : ℕ → Str
nibble_of_hex c =
    let ch = to_lower c in
    if is_digit ch
    then nibble_bits (ch - b'0')
    else if leb b'a' ch && leb ch b'f'
    then nibble_bits (ch - b'a' + 10)
    else if ch == b'z'
    then codes "zzzz"
    else codes "xxxx"

unfoldable pub bits_of_hex : Str → Str
bits_of_hex [] = []
bits_of_hex (c ∷ s) = nibble_of_hex c ++ bits_of_hex s

unfoldable pub logic_chars : Str → Str
unfolding normalize_logic_char
logic_chars [] = []
logic_chars (c ∷ s) = normalize_logic_char c ∷ logic_chars s

abbrev pub is_h : ℕ → Bool
is_h c = c == b'h' || c == b'H'

abbrev pub is_b : ℕ → Bool
is_b c = c == b'b' || c == b'B'

unfoldable pub normalize_multibit_bits : Str → ℕ → Str
unfolding bits_of_hex logic_chars pad_zeros keep_low
normalize_multibit_bits [] width = []
normalize_multibit_bits (front ∷ rest) width =
    if is_h front
    then keep_low (bit_digits width) (pad_zeros (hex_digits width * 4) (bits_of_hex rest))
    else if is_b front
    then (let bits = logic_chars rest in
        if is_empty bits then [] else pad_zeros (bit_digits width) bits)
    else lowercase (front ∷ rest)

-- The inner loop of binary_bits_to_decimal, from the last digit to the first: decimal * 2 + carry.
-- It returns the carry that is left and the digits.
unfoldable pub double_digits : Str → ℕ → ℕ × Str
double_digits [] carry = (carry, [])
double_digits (d ∷ ds) carry =
    let (c, rest) = double_digits ds carry in
    let digit = (d - b'0') * 2 + c in (digit / 10, (b'0' + digit % 10) ∷ rest)

unfoldable pub push_bit : Str → ℕ → Str
unfolding double_digits
push_bit decimal bit =
    let (carry, digits) = double_digits decimal (if bit == b'1' then 1 else 0) in
    if ltb 0 carry then (b'0' + carry) ∷ digits else digits

unfoldable pub push_bits : Str → Str → Str
unfolding push_bit
push_bits decimal [] = decimal
push_bits decimal (bit ∷ bits) = push_bits (push_bit decimal bit) bits

unfoldable pub binary_bits_to_decimal : Str → Str
unfolding push_bits
binary_bits_to_decimal bits = push_bits (codes "0") bits

-- One division by 2 in decimal_string_to_bits: the quotient, with no leading zero, and the carry.
unfoldable pub halve_digits : Str → Str → ℕ → Str × ℕ
halve_digits [] quotient carry = (quotient, carry)
halve_digits (ch ∷ decimal) quotient carry =
    let cur = carry * 10 + (ch - b'0') in
    let q = cur / 2 in
    halve_digits decimal
      (if not (is_empty quotient) || not (q == 0) then quotient ++ (b'0' + q) ∷ [] else quotient)
      (cur % 2)

-- The outer loop, on fuel; `none` if the fuel runs out. The bits are pushed lowest first.
unfoldable pub halving_loop : ℕ → Str → Str → Option Str
unfolding halve_digits
halving_loop zero decimal bits = none
halving_loop (suc fuel) decimal bits =
    let (quotient, carry) = halve_digits decimal [] 0 in
    let next =
      halving_loop fuel (if is_empty quotient then codes "0" else quotient)
        (bits ++ (b'0' + carry) ∷ []) in
    if is_empty decimal || str_eq decimal (codes "0") then some bits else next

abbrev pub all_digits : Str → Bool
all_digits [] = true
all_digits (c ∷ s) = is_digit c && all_digits s

abbrev pub drop_zeros : Str → Str
drop_zeros [] = []
drop_zeros (c ∷ s) = let rest = drop_zeros s in if c == b'0' then rest else c ∷ s

-- Four halvings take away at least one decimal digit, so this fuel is enough (Decimal).
abbrev pub halving_fuel : Str → ℕ
halving_fuel decimal = suc (4 * length decimal)

unfoldable pub decimal_string_to_bits : Str → Option Str
unfolding halving_loop
decimal_string_to_bits decimal =
    if is_empty decimal || not (all_digits decimal)
    then some []
    else (let significant = drop_zeros decimal in
        if is_empty significant
        then some (codes "0")
        else Option.map reverse (halving_loop (halving_fuel significant) significant []))
