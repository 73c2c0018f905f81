-- ===== src/Trace/Distance/Levenshtein.antt =====
-- The tables of db/GraphDb.cc compute the Levenshtein distance.
use auto_waveform_debugger.Base.{
  ℕ, suc, ◌+◌, ◌≤◌, ◌≡◌, ◌⊎◌, ◌∙◌, refl, sym, ap, min, ◌==◌, if◌then◌else◌, ltb, List, [], ◌∷◌, Str,
  length, arith, Bool-cases, inl, inr, ==_iff,
}
use mathlib.Core.Path.{subst}
use auto_waveform_debugger.Trace.Distance.{
  first_row, fill_row, edit_rows, last_entry, edit_distance,
}

-- The least number of insertions, deletions and substitutions that turn one text into the other, by
-- the recursion on their first characters.
unfoldable pub levenshtein : Str → Str → ℕ
levenshtein [] b = length b
levenshtein (c ∷ a) [] = length a + 1
levenshtein (c ∷ a) (d ∷ b) =
    min (levenshtein (c ∷ a) b + 1)
      (min (levenshtein a (d ∷ b) + 1) (levenshtein a b + (if c == d then 0 else 1)))

-- Turning a prefix into a prefix, both read backwards: the entries of a row behind the one of `rb`.
rest_row : Str → Str → Str → List ℕ
rest_row ra rb [] = []
rest_row ra rb (d ∷ b) = levenshtein ra (d ∷ rb) ∷ rest_row ra (d ∷ rb) b

rev_append : Str → Str → Str
rev_append [] rb = rb
rev_append (d ∷ b) rb = rev_append b (d ∷ rb)

levenshtein-nil : (rb : Str) → levenshtein [] rb ≡ length rb
unfolding levenshtein
levenshtein-nil [] = refl
levenshtein-nil (d ∷ rb) = refl

first_row_lem :
    (j : ℕ) (rb b : Str) → j ≡ length rb → first_row j b ≡ levenshtein [] rb ∷ rest_row [] rb b
unfolding first_row rest_row
first_row_lem j rb [] h = rw (levenshtein-nil rb, h) refl
first_row_lem j rb (d ∷ b) h = ground (arith, levenshtein-nil rb, first_row_lem (j + 1) (d ∷ rb) b)

fill_row_lem :
    (c : ℕ) (ra rb b : Str)
    → fill_row c b (levenshtein (c ∷ ra) rb) (levenshtein ra rb ∷ rest_row ra rb b)
      ≡ rest_row (c ∷ ra) rb b
unfolding fill_row rest_row
fill_row_lem c ra rb [] = refl
fill_row_lem c ra rb (d ∷ b) =
    let entry : min (levenshtein ra (d ∷ rb) + 1)
          (min (levenshtein (c ∷ ra) rb + 1) (levenshtein ra rb + (if c == d then 0 else 1)))
        ≡ levenshtein (c ∷ ra) (d ∷ rb) =
      unfold levenshtein in omega arith in
    rw entry (ap (λ row. levenshtein (c ∷ ra) (d ∷ rb) ∷ row) (fill_row_lem c ra (d ∷ rb) b))

edit_rows_lem :
    (i : ℕ) (a ra b : Str)
    → i ≡ length ra + 1
    → edit_rows i a b (levenshtein ra [] ∷ rest_row ra [] b)
      ≡ levenshtein (rev_append a ra) [] ∷ rest_row (rev_append a ra) [] b
unfolding edit_rows rev_append
edit_rows_lem i [] ra b h = refl
edit_rows_lem i (c ∷ a) ra b h =
    let left : i ≡ levenshtein (c ∷ ra) [] = unfold levenshtein in h in
    rw (left, fill_row_lem c ra [] b)
      (ap (λ (n : ℕ). edit_rows (n + 1) a b (levenshtein (c ∷ ra) [] ∷ rest_row (c ∷ ra) [] b))
          (sym left)
        ∙ edit_rows_lem (i + 1) a (c ∷ ra) b (omega arith))

last_row :
    (ra rb b : Str)
    → last_entry (levenshtein ra rb ∷ rest_row ra rb b) ≡ levenshtein ra (rev_append b rb)
unfolding rest_row rev_append
last_row ra rb [] = refl
last_row ra rb (d ∷ b) = last_row ra (d ∷ rb) b

edit_distance_lem :
    (a b : Str) → edit_distance a b ≡ levenshtein (rev_append a []) (rev_append b [])
unfolding edit_distance
edit_distance_lem a b =
    rw (first_row_lem 0 [] b refl, edit_rows_lem 1 a [] b (omega arith))
      (last_row (rev_append a []) [] b)

-- A script that turns one text into the other, and its cost.
pub data Script : Str → Str → ℕ → Type 0 where
  done : Script [] [] 0
  keep : {a b : Str} {n : ℕ} (c : ℕ) → Script a b n → Script (c ∷ a) (c ∷ b) n
  delete : {a b : Str} {n : ℕ} (c : ℕ) → Script a b n → Script (c ∷ a) b (suc n)
  add : {a b : Str} {n : ℕ} (d : ℕ) → Script a b n → Script a (d ∷ b) (suc n)
  replace : {a b : Str} {n : ℕ} (c d : ℕ) → Script a b n → Script (c ∷ a) (d ∷ b) (suc n)

recost : {a b : Str} {m n : ℕ} → m ≡ n → Script a b m → Script a b n
recost {a} {b} e s = subst (Script a b) e s

Script-rev_append :
    {a b ra rb : Str} {m n : ℕ}
    → Script a b m
    → Script ra rb n
    → (k : ℕ) × (k ≡ m + n) × Script (rev_append a ra) (rev_append b rb) k
unfolding rev_append
Script-rev_append {n = n} done t = (n, omega arith, t)
Script-rev_append (keep c s) t = Script-rev_append s (keep c t)
Script-rev_append (delete c s) t =
    let (k, e, r) = Script-rev_append s (delete c t) in (k, omega arith, r)
Script-rev_append (add d s) t = let (k, e, r) = Script-rev_append s (add d t) in (k, omega arith, r)
Script-rev_append (replace c d s) t =
    let (k, e, r) = Script-rev_append s (replace c d t) in (k, omega arith, r)

rev_append_twice : (a ra : Str) → rev_append (rev_append a ra) [] ≡ rev_append ra a
unfolding rev_append
rev_append_twice [] ra = refl
rev_append_twice (c ∷ a) ra = rev_append_twice a (c ∷ ra)

levenshtein-nil_right : (a : Str) → levenshtein a [] ≡ length a
unfolding levenshtein
levenshtein-nil_right [] = refl
levenshtein-nil_right (c ∷ a) = omega arith

levenshtein-delete : (c : ℕ) (a b : Str) → levenshtein (c ∷ a) b ≤ levenshtein a b + 1
unfolding levenshtein
levenshtein-delete c a [] = omega (arith, levenshtein-nil_right a)
levenshtein-delete c a (d ∷ b) = omega arith

levenshtein-add : (d : ℕ) (a b : Str) → levenshtein a (d ∷ b) ≤ levenshtein a b + 1
unfolding levenshtein
levenshtein-add d [] b = omega (arith, levenshtein-nil b)
levenshtein-add d (c ∷ a) b = omega arith

levenshtein-le : {a b : Str} {n : ℕ} → Script a b n → levenshtein a b ≤ n
unfolding levenshtein
levenshtein-le done = omega arith
levenshtein-le (keep c s) = ground (arith, levenshtein-le s)
levenshtein-le (delete {a = a} {b = b} c s) =
    omega (arith, levenshtein-le s, levenshtein-delete c a b)
levenshtein-le (add {a = a} {b = b} d s) = omega (arith, levenshtein-le s, levenshtein-add d a b)
levenshtein-le (replace c d s) = ground (arith, levenshtein-le s)

min_cases : (m n : ℕ) → (min m n ≡ m) ⊎ (min m n ≡ n)
min_cases m n = elim (Bool-cases (ltb m n)) [
  | inl below ↦ inl (ground arith)
  | inr above ↦ inr (ground arith)
]

-- Whatever holds of three numbers holds of the least of them.
min3 {ℓ} : (P : ℕ → Type ℓ) (x y z : ℕ) → P x → P y → P z → P (min x (min y z))
min3 P x y z p q r = elim (min_cases x (min y z)) [
  | inl e ↦ rw e p
  | inr e ↦ rw e (elim (min_cases y z) [ inl f ↦ rw f q | inr f ↦ rw f r ])
]

to_nil : (a : Str) → Script a [] (length a)
to_nil [] = done
to_nil (c ∷ a) = delete c (to_nil a)

from_nil : (b : Str) → Script [] b (length b)
from_nil [] = done
from_nil (d ∷ b) = add d (from_nil b)

substitute :
    {a b : Str} {n : ℕ} (c d : ℕ)
    → Script a b n
    → Script (c ∷ a) (d ∷ b) (n + (if c == d then 0 else 1))
substitute {a = a} {b = b} {n = n} c d s = elim (Bool-cases (c == d)) [
  | inl same ↦ rw same (
      recost {m = n} (omega arith)
        (subst (λ x. Script (c ∷ a) (x ∷ b) n) ((==_iff c d).0 same) (keep c s)))
  | inr other ↦ rw other (recost (omega arith) (replace c d s))
]

levenshtein-Script : (a b : Str) → Script a b (levenshtein a b)
unfolding levenshtein
levenshtein-Script [] b = from_nil b
levenshtein-Script (c ∷ a) [] = recost (omega arith) (delete c (to_nil a))
levenshtein-Script (c ∷ a) (d ∷ b) =
    min3 (Script (c ∷ a) (d ∷ b)) _ _ _
      (recost (omega arith) (add d (levenshtein-Script (c ∷ a) b)))
      (recost (omega arith) (delete c (levenshtein-Script a (d ∷ b))))
      (substitute c d (levenshtein-Script a b))

Script-reversed : (a b : Str) {n : ℕ} → Script (rev_append a []) (rev_append b []) n → Script a b n
unfolding rev_append
Script-reversed a b s =
    let (k, e, r) = Script-rev_append s done in
    recost (omega (arith, e)) (rw (rev_append_twice a [], rev_append_twice b []) at r)

-- The edit distance is the least cost of a script of insertions, deletions and replacements of
-- single characters that turns the one text into the other.
pub edit_distance-IsLeast :
    (a b : Str) → Script a b (edit_distance a b) × ((n : ℕ) → Script a b n → edit_distance a b ≤ n)
edit_distance-IsLeast a b = rw (edit_distance_lem a b) (
  Script-reversed a b (levenshtein-Script (rev_append a []) (rev_append b [])),
  λ n s. let (k, e, r) = Script-rev_append s done in omega (arith, e, levenshtein-le r),
)

delete_all : (a b : Str) → Script a b (length a + length b)
delete_all [] b = recost (omega arith) (from_nil b)
delete_all (c ∷ a) b = recost (omega arith) (delete c (delete_all a b))

-- No more edits than characters.
pub edit_distance-le : (a b : Str) → edit_distance a b ≤ length a + length b
edit_distance-le a b = (edit_distance-IsLeast a b).1 (length a + length b) (delete_all a b)
