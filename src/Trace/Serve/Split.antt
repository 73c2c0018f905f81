-- ===== src/Trace/Serve/Split.antt =====
-- SplitCommandLine of serve/ServeLoop.cc: a line to words, with quotes and escapes.
pub mod RoundTrip
use auto_waveform_debugger.Base.{
  ℕ, Bool, true, false, ◌||◌, Option, none, some, List, [], ◌∷◌, ◌++◌, Str, is_empty, if◌then◌else◌,
  ◌==◌,
}
use auto_waveform_debugger.Base.Text.{is_space}

-- The variables of the loop. The quotes and the backslash are written as their codes.
pub record Split : Type 0 where
  pub out : List Str
  pub cur : Str
  pub in_single : Bool
  pub in_double : Bool
  pub escaped : Bool

abbrev pub single_quote : ℕ
single_quote = 39

abbrev pub double_quote : ℕ
double_quote = 34

abbrev pub backslash : ℕ
backslash = 92

abbrev pub push_char : ℕ → Split → Split
push_char c st = record st { cur = st.cur ++ c ∷ [] }

abbrev pub push_word : Split → Split
push_word st = if is_empty st.cur then st else record st { out = st.out ++ st.cur ∷ []; cur = [] }

unfoldable pub split_char : ℕ → Split → Split
split_char c st =
    if st.escaped
    then push_char c (record st { escaped = false })
    else if c == backslash
    then record st { escaped = true }
    else if st.in_single
    then (if c == single_quote then record st { in_single = false } else push_char c st)
    else if st.in_double
    then (if c == double_quote then record st { in_double = false } else push_char c st)
    else if c == single_quote
    then record st { in_single = true }
    else if c == double_quote
    then record st { in_double = true }
    else if is_space c
    then push_word st
    else push_char c st

unfoldable pub split_chars : Str → Split → Split
unfolding split_char
split_chars [] st = st
split_chars (c ∷ line) st = split_chars line (split_char c st)

abbrev pub no_words : Split
no_words = record { out = []; cur = []; in_single = false; in_double = false; escaped = false }

-- The words, or none where the line ends in a quote or behind a backslash.
unfoldable pub split_command_line : Str → Option (List Str)
unfolding split_chars
split_command_line line =
    let st = split_chars line no_words in
    if st.escaped || (st.in_single || st.in_double) then none else some (push_word st).out
