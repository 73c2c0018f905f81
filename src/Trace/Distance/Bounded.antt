-- ===== src/Trace/Distance/Bounded.antt =====
-- BoundedEditDistance of db/GraphDb.cc agrees with EditDistance up to its bound.
use auto_waveform_debugger.Base.{
  ℕ, ◌+◌, ◌≤◌, ◌<◌, ◌≡◌, refl, min, ltb, List, [], ◌∷◌, Str, length, arith, Bool-cases, inl, inr,
  All, ltb→lt,
}
use auto_waveform_debugger.Trace.Distance.{
  first_row, fill_row, edit_rows, last_entry, edit_distance, row_min, bounded_rows, gap,
  bounded_edit_distance,
}
use auto_waveform_debugger.Trace.Distance.Levenshtein.{
  Script, done, keep, delete, add, replace, edit_distance-IsLeast,
}

-- A script has to bridge the difference of the lengths.
gap-le : {a b : Str} {n : ℕ} → Script a b n → (length a ≤ length b + n) × (length b ≤ length a + n)
gap-le done = omega arith
gap-le (keep c s) = omega (arith, gap-le s)
gap-le (delete c s) = omega (arith, gap-le s)
gap-le (add d s) = omega (arith, gap-le s)
gap-le (replace c d s) = omega (arith, gap-le s)

abbrev AreAtLeast : ℕ → List ℕ → Type 0
AreAtLeast k = All (λ n. k ≤ n)

row_min-AreAtLeast :
    (k least : ℕ) (row : List ℕ) → k ≤ row_min least row → (k ≤ least) × AreAtLeast k row
row_min-AreAtLeast k least [] h = (h, tt)
row_min-AreAtLeast k least (n ∷ row) h =
    let (below, rest) = row_min-AreAtLeast k (min least n) row h in
    (omega arith, (omega arith, rest))

fill_row-AreAtLeast :
    (k c : ℕ) (b : Str) (left : ℕ) (prev : List ℕ)
    → k ≤ left
    → AreAtLeast k prev
    → AreAtLeast k (fill_row c b left prev)
unfolding fill_row
fill_row-AreAtLeast k c [] left prev l h = tt
fill_row-AreAtLeast k c (d ∷ b) left [] l h = tt
fill_row-AreAtLeast k c (d ∷ b) left (diagonal ∷ []) l h = tt
fill_row-AreAtLeast k c (d ∷ b) left (diagonal ∷ up ∷ prev) l h =
    (omega arith, fill_row-AreAtLeast k c b _ (up ∷ prev) (omega arith) h.1)

last_entry-AtLeast : (k n : ℕ) (row : List ℕ) → AreAtLeast k (n ∷ row) → k ≤ last_entry (n ∷ row)
last_entry-AtLeast k n [] h = h.0
last_entry-AtLeast k n (m ∷ row) h = last_entry-AtLeast k m row h.1

edit_rows-AtLeast :
    (k i : ℕ) (a b : Str) (n : ℕ) (prev : List ℕ)
    → k ≤ i
    → AreAtLeast k (n ∷ prev)
    → k ≤ last_entry (edit_rows i a b (n ∷ prev))
unfolding edit_rows
edit_rows-AtLeast k i [] b n prev l h = last_entry-AtLeast k n prev h
edit_rows-AtLeast k i (c ∷ a) b n prev l h =
    edit_rows-AtLeast k (i + 1) a b i (fill_row c b i (n ∷ prev)) (omega arith)
      (l, fill_row-AreAtLeast k c b i (n ∷ prev) l h)

-- The two numbers agree, or both exceed the bound.
abbrev pub AgreeUpTo : ℕ → ℕ → ℕ → Type 0
AgreeUpTo bound m n = (n ≤ bound → m ≡ n) × (bound < n → bound < m)

bounded_rows_lem :
    (bound i : ℕ) (a b : Str) (n : ℕ) (prev : List ℕ)
    → AgreeUpTo bound
        (bounded_rows bound i a b (n ∷ prev))
        (last_entry (edit_rows i a b (n ∷ prev)))
unfolding bounded_rows edit_rows
bounded_rows_lem bound i [] b n prev = (λ h. refl, λ h. h)
bounded_rows_lem bound i (c ∷ a) b n prev =
    let row : List ℕ = fill_row c b i (n ∷ prev) in
    let least : ℕ = row_min i row in
    elim (Bool-cases (ltb bound least)) [
      | inl stop ↦ rw stop (
          let (first, others) = row_min-AreAtLeast least i row (omega arith) in
          let final = edit_rows-AtLeast least (i + 1) a b i row (omega arith) (first, others) in
          let above = ltb→lt bound least stop in (λ h. absurd (omega arith), λ h. above))
      | inr go ↦ rw go (bounded_rows_lem bound (i + 1) a b i row)
    ]

distance_rows :
    (bound : ℕ) (a b : Str)
    → AgreeUpTo bound (bounded_rows bound 1 a b (first_row 0 b)) (edit_distance a b)
unfolding edit_distance first_row
distance_rows bound a [] = bounded_rows_lem bound 1 a [] 0 []
distance_rows bound a (d ∷ b) = bounded_rows_lem bound 1 a (d ∷ b) 0 (first_row 1 b)

-- Up to its bound the bounded distance is the edit distance; where the edit distance exceeds the bound
-- the bounded one does too.
pub bounded_edit_distance-AgreeUpTo :
    (a b : Str) (bound : ℕ) → AgreeUpTo bound (bounded_edit_distance a b bound) (edit_distance a b)
unfolding bounded_edit_distance
bounded_edit_distance-AgreeUpTo a b bound =
    let apart = gap-le (edit_distance-IsLeast a b).0 in
    elim (Bool-cases (ltb bound (gap (length a) (length b)))) [
      | inl far ↦ rw far (λ h. absurd (ground arith), λ h. ltb→lt _ _ far)
      | inr near ↦ rw near (distance_rows bound a b)
    ]
