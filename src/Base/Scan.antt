-- ===== src/Base/Scan.antt =====
-- The parts of the standard library that read text: istringstream >> string, std::stoul and stoull.
use auto_waveform_debugger.Base.{
  ℕ, ◌+◌, ◌-◌, ◌*◌, ◌%◌, Bool, true, false, Option, none, some, List, [], ◌∷◌, ◌++◌, Str,
  if◌then◌else◌, ltb, ◌==◌, word64, max_u64,
}
use auto_waveform_debugger.Base.Text.{is_space, is_digit}

abbrev pub drop_spaces : Str → Str
drop_spaces [] = []
drop_spaces (c ∷ s) = let rest = drop_spaces s in if is_space c then rest else c ∷ s

abbrev flush : Str → List Str → List Str
flush [] ws = ws
flush (c ∷ word) ws = (c ∷ word) ∷ ws

-- The words that a run of `stream >> word` reads. `word` has been read so far.
unfoldable pub words_from : Str → Str → List Str
words_from word [] = flush word []
words_from word (c ∷ s) =
    let longer = words_from (word ++ c ∷ []) s in
    let closed = flush word (words_from [] s) in if is_space c then closed else longer

unfoldable pub words : Str → List Str
unfolding words_from
words = words_from []

-- The i-th word, empty if the stream ends before it.
abbrev pub word_at : List Str → ℕ → Str
word_at [] i = []
word_at (w ∷ ws) ℕ.zero = w
word_at (w ∷ ws) (ℕ.suc i) = word_at ws i

-- The digits at the start of the text, as a number; `none` if there is no digit.
unfoldable pub leading_digits : Option ℕ → Str → Option ℕ
leading_digits acc [] = acc
leading_digits acc (c ∷ s) =
    let more =
      leading_digits (some (elim acc [ none ↦ c - b'0' | some n ↦ n * 10 + (c - b'0') ])) s in
    if is_digit c then more else acc

-- A value of more than 64 bits throws; a minus sign negates modulo 2^64.
abbrev pub in_range : Bool → Option ℕ → Option ℕ
in_range negative none = none
in_range negative (some n) =
    if ltb max_u64 n then none else some (if negative then (word64 - n) % word64 else n)

abbrev pub signed : Str → Option ℕ
signed [] = none
signed (c ∷ s) =
    if c == b'-'
    then in_range true (leading_digits none s)
    else if c == b'+'
    then in_range false (leading_digits none s)
    else in_range false (leading_digits none (c ∷ s))

-- `none` where std::stoull throws.
unfoldable pub stoull : Str → Option ℕ
unfolding leading_digits
stoull s = signed (drop_spaces s)
