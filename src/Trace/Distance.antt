-- ===== src/Trace/Distance.antt =====
-- EditDistance and BoundedEditDistance of db/GraphDb.cc. A row of the table is the list of its
-- entries; the loop over j computes the rest of a row from the entry at its left.
pub mod Bounded
pub mod Levenshtein
use auto_waveform_debugger.Base.{
  ℕ, zero, suc, ◌+◌, ◌-◌, min, ◌==◌, if◌then◌else◌, ltb, Bool, true, false, Option, none, some,
  List, [], ◌∷◌, Str, length, last?,
}

-- 0, 1, ... up to the length of b: the row that the table starts with.
unfoldable pub first_row : ℕ → Str → List ℕ
first_row j [] = j ∷ []
first_row j (d ∷ b) = j ∷ first_row (j + 1) b

-- The entries behind `left` in the row of the character c.
unfoldable pub fill_row : ℕ → Str → ℕ → List ℕ → List ℕ
fill_row c (d ∷ b) left (diagonal ∷ up ∷ prev) =
    let cost = if c == d then 0 else 1 in
    let entry = min (up + 1) (min (left + 1) (diagonal + cost)) in
    entry ∷ fill_row c b entry (up ∷ prev)
fill_row c b left prev = []

abbrev pub next_row : ℕ → ℕ → Str → List ℕ → List ℕ
next_row i c b prev = i ∷ fill_row c b i prev

-- The loop over i, and the entry at its end.
unfoldable pub edit_rows : ℕ → Str → Str → List ℕ → List ℕ
unfolding fill_row
edit_rows i [] b prev = prev
edit_rows i (c ∷ a) b prev = edit_rows (i + 1) a b (next_row i c b prev)

abbrev pub last_entry : List ℕ → ℕ
last_entry row = elim (last? row) [ none ↦ 0 | some n ↦ n ]

unfoldable pub edit_distance : Str → Str → ℕ
unfolding edit_rows first_row
edit_distance a b = last_entry (edit_rows 1 a b (first_row 0 b))

abbrev pub row_min : ℕ → List ℕ → ℕ
row_min least [] = least
row_min least (n ∷ row) = row_min (min least n) row

-- The bounded loop stops at a row whose entries all exceed the bound.
unfoldable pub bounded_rows : ℕ → ℕ → Str → Str → List ℕ → ℕ
unfolding fill_row
bounded_rows bound i [] b prev = last_entry prev
bounded_rows bound i (c ∷ a) b prev =
    let least = row_min i (fill_row c b i prev) in
    let rest = bounded_rows bound (i + 1) a b (next_row i c b prev) in
    if ltb bound least then least else rest

abbrev pub gap : ℕ → ℕ → ℕ
gap m n = if ltb n m then m - n else n - m

unfoldable pub bounded_edit_distance : Str → Str → ℕ → ℕ
unfolding bounded_rows first_row
bounded_edit_distance a b bound =
    let diff = gap (length a) (length b) in
    if ltb bound diff then diff else bounded_rows bound 1 a b (first_row 0 b)
