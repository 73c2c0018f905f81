-- ===== src/Trace/Serve/Split/RoundTrip.antt =====
-- Words that are written with quotes and escapes are split as they were.
use auto_waveform_debugger.Base.{
  ℕ, ◌≡◌, ◌≢◌, refl, sym, ap, ◌∙◌, Bool, true, false, not, ◌&&◌, ◌||◌, some, List, [], ◌∷◌, ◌++◌,
  Str, if◌then◌else◌, ◌==◌, arith, Bool-cases, inl, inr, All,
}
use auto_waveform_debugger.Base.Text.{is_space}
use mathlib.Core.List.{append_assoc, append-nil}
use auto_waveform_debugger.Trace.Serve.Split.{
  Split, single_quote, double_quote, backslash, split_char, split_chars, split_command_line,
}

-- How a word is written: as it is, in single quotes, or in double quotes with escapes.
pub data Style : Type 0 where
  bare single double : Style

abbrev pub escape : Str → Str
escape [] = []
escape (c ∷ s) =
    if c == backslash || c == double_quote then backslash ∷ c ∷ escape s else c ∷ escape s

abbrev pub is_bare : ℕ → Bool
is_bare c = not (c == backslash || (c == single_quote || (c == double_quote || is_space c)))

abbrev pub all_chars : (ℕ → Bool) → Str → Bool
all_chars p [] = true
all_chars p (c ∷ s) = p c && all_chars p s

-- The words that a style can write: no backslash stands in single quotes.
abbrev pub Suits : Style → Str → Type 0
Suits bare s = all_chars is_bare s ≡ true
Suits single s = all_chars (λ c. not (c == backslash || c == single_quote)) s ≡ true
Suits double s = Unit

-- The word with its quotes, followed by a rest.
unfoldable pub write_word : Style → Str → Str → Str
write_word bare s rest = s ++ rest
write_word single s rest = single_quote ∷ (s ++ single_quote ∷ rest)
write_word double s rest = double_quote ∷ (escape s ++ double_quote ∷ rest)

-- A state outside of quotes.
abbrev plain : List Str → Str → Split
plain out cur = record {
  out = out;
  cur = cur;
  in_single = false;
  in_double = false;
  escaped = false;
}

split_bare :
    (out : List Str) (cur s rest : Str)
    → all_chars is_bare s ≡ true
    → split_chars (s ++ rest) (plain out cur) ≡ split_chars rest (plain out (cur ++ s))
unfolding split_chars
split_bare out cur [] rest h = rw (append-nil cur) refl
split_bare out cur (c ∷ s) rest h =
    let next : split_char c (plain out cur) ≡ plain out (cur ++ c ∷ []) =
      unfold split_char in ground arith in
    ap (split_chars (s ++ rest)) next
    ∙ split_bare out (cur ++ c ∷ []) s rest (ground arith)
    ∙ ap (λ t. split_chars rest (plain out t)) (append_assoc cur (c ∷ []) s)

split_single :
    (out : List Str) (cur s rest : Str)
    → Suits single s
    → split_chars (s ++ single_quote ∷ rest) (record (plain out cur) { in_single = true })
      ≡ split_chars rest (plain out (cur ++ s))
unfolding split_chars
split_single out cur [] rest h =
    unfold split_char in ap (λ t. split_chars rest (plain out t)) (sym (append-nil cur))
split_single out cur (c ∷ s) rest h =
    let next : split_char c (record (plain out cur) { in_single = true })
        ≡ record (plain out (cur ++ c ∷ [])) { in_single = true } =
      unfold split_char in ground arith in
    ap (split_chars (s ++ single_quote ∷ rest)) next
    ∙ split_single out (cur ++ c ∷ []) s rest (ground arith)
    ∙ ap (λ t. split_chars rest (plain out t)) (append_assoc cur (c ∷ []) s)

-- A character in double quotes, with a backslash where it needs one.
split_escaped :
    (out : List Str) (cur : Str) (c : ℕ) (rest : Str)
    → split_chars
        (if c == backslash || c == double_quote then backslash ∷ c ∷ rest else c ∷ rest)
        (record (plain out cur) { in_double = true })
      ≡ split_chars rest (record (plain out (cur ++ c ∷ [])) { in_double = true })
unfolding split_chars split_char
split_escaped out cur c rest = elim (Bool-cases (c == backslash || c == double_quote)) [
  | inl special ↦ rw special refl
  | inr usual ↦ rw usual (ap (split_chars rest) (ground arith))
]

escape-append :
    (c : ℕ) (s rest : Str)
    → escape (c ∷ s) ++ rest ≡ (
        if c == backslash || c == double_quote
        then backslash ∷ c ∷ (escape s ++ rest)
        else c ∷ (escape s ++ rest))
escape-append c s rest = ground arith

split_double :
    (out : List Str) (cur s rest : Str)
    → split_chars (escape s ++ double_quote ∷ rest) (record (plain out cur) { in_double = true })
      ≡ split_chars rest (plain out (cur ++ s))
unfolding split_chars
split_double out cur [] rest =
    unfold split_char in ap (λ t. split_chars rest (plain out t)) (sym (append-nil cur))
split_double out cur (c ∷ s) rest =
    ap (λ t. split_chars t (record (plain out cur) { in_double = true }))
      (escape-append c s (double_quote ∷ rest))
    ∙ split_escaped out cur c (escape s ++ double_quote ∷ rest)
    ∙ split_double out (cur ++ c ∷ []) s rest
    ∙ ap (λ t. split_chars rest (plain out t)) (append_assoc cur (c ∷ []) s)

split_word :
    (style : Style) (out : List Str) (s rest : Str)
    → Suits style s
    → split_chars (write_word style s rest) (plain out []) ≡ split_chars rest (plain out s)
unfolding write_word
split_word bare out s rest h = split_bare out [] s rest h
split_word single out s rest h = unfold split_chars split_char in split_single out [] s rest h
split_word double out s rest h = unfold split_chars split_char in split_double out [] s rest

-- The words, each with its style and followed by white space.
unfoldable pub write_line : List (Style × Str) → Str
unfolding write_word
write_line [] = []
write_line ((style, s) ∷ l) = write_word style s (b' ' ∷ write_line l)

unfoldable pub words_of : List (Style × Str) → List Str
words_of [] = []
words_of ((style, s) ∷ l) = s ∷ words_of l

split_line :
    (l : List (Style × Str)) (out : List Str)
    → All (λ w. Suits w.0 w.1 × (w.1 ≢ [])) l
    → split_chars (write_line l) (plain out []) ≡ plain (out ++ words_of l) []
unfolding write_line words_of split_chars
split_line [] out h = rw (append-nil out) refl
split_line ((style, []) ∷ l) out h = absurd (h.0.1 refl)
split_line ((style, c ∷ s) ∷ l) out h =
    split_word style out (c ∷ s) (b' ' ∷ write_line l) h.0.0
    ∙ (unfold split_char in refl)
    ∙ split_line l (out ++ (c ∷ s) ∷ []) h.1
    ∙ ap (λ t. plain t []) (append_assoc out ((c ∷ s) ∷ []) (words_of l))

-- A line of words that are not empty, each written as it is (where it has no quote, no backslash and
-- no white space), in single quotes (where it has no single quote and no backslash) or in double
-- quotes with a backslash before each double quote and backslash, is split to these words.
pub split_command_line-write_line :
    (l : List (Style × Str))
    → All (λ w. Suits w.0 w.1 × (w.1 ≢ [])) l
    → split_command_line (write_line l) ≡ some (words_of l)
unfolding split_command_line
split_command_line-write_line l h = rw (split_line l [] h) refl
