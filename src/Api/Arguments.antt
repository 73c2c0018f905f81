-- ===== src/Api/Arguments.antt =====
-- The JSON arguments of AgentAPI.cpp that are a number, a text or missing. What nlohmann::json reads
-- as an integer is its 64-bit word, as `get<int64_t>` and `get<uint64_t>` give it.
use auto_waveform_debugger.Base.{
  ℕ, ◌-◌, ◌^◌, ◌%◌, Bool, true, false, ◌&&◌, Option, none, some, [], ◌∷◌, Str, codes, str_eq, ltb,
  leb, if◌then◌else◌, word64, ◌==◌,
}
use auto_waveform_debugger.Base.Text.{lowercase}
use auto_waveform_debugger.Base.Scan.{drop_spaces, leading_digits, stoull}
use auto_waveform_debugger.Api.Reply.{
  Reply, Message, success, error, resolution_not_positive, resolution_not_integer,
  sample_period_not_positive, sample_period_not_integer,
}

pub data Argument : Type 0 where
  null other : Argument
  number : ℕ → Argument
  text : Str → Argument

-- The word of an int64_t is above zero.
abbrev pub is_positive : ℕ → Bool
is_positive value = ltb 0 value && ltb value (2 ^ 63)

abbrev int64 : Bool → Option ℕ → Option ℕ
int64 negative none = none
int64 true (some n) = if leb n (2 ^ 63) then some ((word64 - n) % word64) else none
int64 false (some n) = if ltb n (2 ^ 63) then some n else none

abbrev signed_int64 : Str → Option ℕ
signed_int64 [] = none
signed_int64 (c ∷ s) =
    if c == b'-'
    then int64 true (leading_digits none s)
    else if c == b'+'
    then int64 false (leading_digits none s)
    else int64 false (leading_digits none (c ∷ s))

-- `none` where std::stoll throws; else the word of the result.
unfoldable pub stoll : Str → Option ℕ
unfolding leading_digits
stoll s = signed_int64 (drop_spaces s)

pub data Resolution : Type 0 where
  auto : Resolution
  every : ℕ → Resolution

unfoldable pub parse_overview_resolution : Argument → Reply Resolution
unfolding stoll
parse_overview_resolution null = error resolution_not_integer
parse_overview_resolution other = error resolution_not_integer
parse_overview_resolution (number value) =
    if is_positive value then success (every value) else error resolution_not_positive
parse_overview_resolution (text raw) =
    if str_eq (lowercase raw) (codes "auto") then success auto else elim (stoll raw) [
      | none ↦ error resolution_not_integer
      | some value ↦
          if is_positive value then success (every value) else error resolution_not_positive
    ]

unfoldable pub parse_sample_period_arg : Argument → Option Message
unfolding stoll
parse_sample_period_arg null = none
parse_sample_period_arg other = some sample_period_not_integer
parse_sample_period_arg (number value) =
    if is_positive value then none else some sample_period_not_positive
parse_sample_period_arg (text raw) = elim (stoll raw) [
  | none ↦ some sample_period_not_integer
  | some value ↦ if is_positive value then none else some sample_period_not_positive
]

-- `none` where `get` or std::stoull throws.
unfoldable pub extract_sample_period_arg : Argument → Option ℕ
unfolding stoull
extract_sample_period_arg null = none
extract_sample_period_arg other = none
extract_sample_period_arg (number value) = some value
extract_sample_period_arg (text raw) = stoull raw
