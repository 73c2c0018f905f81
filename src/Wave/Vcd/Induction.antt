-- ===== src/Wave/Vcd/Induction.antt =====
-- Induction over the lines of a VCD file: what the changes of a value, the declarations and the
-- time stamps keep, the whole of `Load` keeps.
use auto_waveform_debugger.Base.{
  ℕ, ◌≡◌, refl, Bool, true, false, Option, none, some, List, [], ◌∷◌, Str, codes, if◌then◌else◌,
  ◌==◌, Bool-cases, inl, inr, str_eq,
}
use auto_waveform_debugger.Base.Text.{has_char}
use auto_waveform_debugger.Base.Scan.{words, stoull}
use auto_waveform_debugger.Wave.Vcd.{
  Reader, change_value, collect_timescale, declare_var, read_keyword, read_change, read_line, step,
  read_lines, line_start, is_scalar_char, is_vector_char,
}

abbrev OnRead : (ℕ → ℕ → Type 0) → Reader → (Reader → Type 0) → Option Reader → Type 0
OnRead Ok r rest none = Unit
OnRead Ok r rest (some r') = Ok r.current_time r'.current_time × rest r'

-- Each line takes the current time to a time that `Ok` allows after it.
unfoldable pub Advances : (ℕ → ℕ → Type 0) → Reader → List Str → Type 0
Advances Ok r [] = Unit
Advances Ok r (line ∷ lines) = OnRead Ok r (λ s. Advances Ok s lines) (step r line)

-- The parts of the reader that hold signals and transitions are the same.
pub record IsSame (r r' : Reader) : Type 0 where
  pub infos : r'.signal_info ≡ r.signal_info
  pub lists : r'.id_transitions ≡ r.id_transitions
  pub last : r'.last_change_time ≡ r.last_change_time
  pub time : r'.current_time ≡ r.current_time

module _ (P : Reader → Type 0) (Ok : ℕ → ℕ → Type 0)
    (same : (r r' : Reader) → IsSame r r' → P r → P r')
    (timed : (r : Reader) (time : ℕ)
      → Ok r.current_time time
      → P r
      → P (record r { current_time = time }))
    (declares : (r : Reader) (ws : List Str) → P r → P (declare_var r ws))
    (changes : (r : Reader) (id value : Str) → P r → P (change_value r id value)) where
  collect_timescale_keeps : (r : Reader) (parts : List Str) → P r → P (collect_timescale r parts)
  unfolding collect_timescale
  collect_timescale_keeps r [] h = h
  collect_timescale_keeps r (part ∷ parts) h = elim (Bool-cases (str_eq part (codes "$end"))) [
    | inl e ↦ rw e (same r _ (record { infos = refl; lists = refl; last = refl; time = refl }) h)
    | inr e ↦ rw e (
        collect_timescale_keeps _ parts
          (same r _ (record { infos = refl; lists = refl; last = refl; time = refl }) h))
  ]

  read_keyword_keeps : (r : Reader) (ws : List Str) → P r → P (read_keyword r ws)
  unfolding read_keyword
  read_keyword_keeps r [] h = h
  read_keyword_keeps r (token ∷ rest) h = elim (Bool-cases (str_eq token (codes "$timescale"))) [
    | inl e ↦ rw e (
        collect_timescale_keeps _ rest
          (same r _ (record { infos = refl; lists = refl; last = refl; time = refl }) h))
    | inr e ↦ rw e (elim (Bool-cases (str_eq token (codes "$scope"))) [
      | inl f ↦ rw f (same r _ (record { infos = refl; lists = refl; last = refl; time = refl }) h)
      | inr f ↦ rw f (elim (Bool-cases (str_eq token (codes "$upscope"))) [
        | inl g ↦
            rw g (same r _ (record { infos = refl; lists = refl; last = refl; time = refl }) h)
        | inr g ↦ rw g (elim (Bool-cases (str_eq token (codes "$var"))) [
          | inl k ↦ rw k (declares r (token ∷ rest) h)
          | inr k ↦ rw k h
        ])
      ])
    ])
  ]

  read_change_keeps : (r : Reader) (c : ℕ) (rest : Str) → P r → P (read_change r c rest)
  unfolding read_change
  read_change_keeps r c rest h = elim (Bool-cases (is_scalar_char c)) [
    | inl e ↦ rw e (changes r _ _ h)
    | inr e ↦ rw e (elim (Bool-cases (is_vector_char c)) [
      | inr f ↦ rw f h
      | inl f ↦ rw f (elim (Bool-cases (has_char 32 rest)) [
        | inl g ↦ rw g (changes r _ _ h)
        | inr g ↦ rw g (changes r _ _ h)
      ])
    ])
  ]

  -- What `P` says of the reader that a line leaves, if the line is read.
  abbrev Keeps : Reader → Option Reader → Type 0
  Keeps r none = Unit
  Keeps r (some r') = Ok r.current_time r'.current_time → P r'

  read_line-Keeps : (r : Reader) (line p : Str) → P r → Keeps r (read_line r line p)
  unfolding read_line
  read_line-Keeps r line [] h = λ _. h
  read_line-Keeps r line (c ∷ rest) h = elim (Bool-cases (c == b'$')) [
    | inl e ↦ rw e (λ _. read_keyword_keeps r (words line) h)
    | inr e ↦ rw e (elim (Bool-cases (c == b'#')) [
      | inr f ↦ rw f (λ _. read_change_keeps r c rest h)
      | inl f ↦ rw f (stamp (stoull rest))
    ])
  ]
    where
      stamp :
          (t : Option ℕ)
          → Keeps r (elim t [ none ↦ none | some time ↦ some (record r { current_time = time }) ])
      stamp none = tt
      stamp (some time) = λ ok. timed r time ok h

  step-Keeps : (r : Reader) (line : Str) → P r → Keeps r (step r line)
  unfolding step
  step-Keeps r line h = go r.collecting
    where
      go :
          (b : Bool)
          → Keeps r (
              if b
              then some (collect_timescale r (words line))
              else read_line r line (line_start line))
      go true = λ _. collect_timescale_keeps r (words line) h
      go false = read_line-Keeps r line (line_start line) h

  -- From one line to the rest of them.
  next_line :
      {r' : Reader} (r : Reader) (lines : List Str)
      → ((s : Reader) → Advances Ok s lines → P s → read_lines s lines ≡ some r' → P r')
      → (o : Option Reader) → Keeps r o
      → OnRead Ok r (λ s. Advances Ok s lines) o
      → (elim o as (λ _. Option Reader) [ none ↦ none | some s ↦ read_lines s lines ]) ≡ some r'
      → P r'
  next_line r lines rest none k a f = cc
  next_line r lines rest (some s) k a f = rest s a.1 (k a.0) f

  pub read_lines_keeps :
      {r' : Reader} (r : Reader) (lines : List Str)
      → Advances Ok r lines
      → P r
      → read_lines r lines ≡ some r'
      → P r'
  unfolding read_lines Advances
  read_lines_keeps {r'} r [] adv h e = let e' : r ≡ r' = cc in rw (← e') h
  read_lines_keeps r (line ∷ lines) adv h e =
      next_line r lines (λ s. read_lines_keeps s lines) (step r line) (step-Keeps r line h) adv e

pub Advances-always : (r : Reader) (lines : List Str) → Advances (λ _ _. Unit {0}) r lines
unfolding Advances
Advances-always r [] = tt
Advances-always r (line ∷ lines) = go (step r line) (λ s. Advances-always s lines)
  where
    go :
        (o : Option Reader)
        → ((s : Reader) → Advances (λ _ _. Unit {0}) s lines)
        → OnRead (λ _ _. Unit {0}) r (λ s. Advances (λ _ _. Unit {0}) s lines) o
    go none rest = tt
    go (some s) rest = (tt, rest s)
