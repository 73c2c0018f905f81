-- ===== src/Wave/Database/Paths/Order.antt =====
-- The order of std::string, ascending lists of texts, and the sort that produces them.
use auto_waveform_debugger.Base.{
  ◌≡◌, ◌≢◌, refl, sym, true, false, List, [], ◌∷◌, Str, arith, Bool-cases, inl, inr, All,
}
use auto_waveform_debugger.Base.Text.{starts_with, str_lt}
use auto_waveform_debugger.Wave.Database.Paths.{insert_sorted, sort_paths}

pub str_lt_trans : (s t u : Str) → str_lt s t ≡ true → str_lt t u ≡ true → str_lt s u ≡ true
str_lt_trans s t [] h k = ground arith
str_lt_trans [] [] (c ∷ u) h k = refl
str_lt_trans (a ∷ s) [] (c ∷ u) h k = cc
str_lt_trans [] (b ∷ t) (c ∷ u) h k = refl
str_lt_trans (a ∷ s) (b ∷ t) (c ∷ u) h k = ground (arith, str_lt_trans s t u)

pub str_lt_total : (s t : Str) → str_lt s t ≡ false → s ≢ t → str_lt t s ≡ true
str_lt_total [] [] h ne = absurd (ne refl)
str_lt_total (a ∷ s) [] h ne = refl
str_lt_total [] (b ∷ t) h ne = cc
str_lt_total (a ∷ s) (b ∷ t) h ne =
    ground (arith, str_lt_total s t, λ (e : s ≡ t) (f : a ≡ b). ne (rw (e, f)))

-- A path above the prefix that does not match it is above all paths that match.
pub past_prefix_lem :
    (p s t : Str)
    → starts_with p s ≡ false
    → str_lt p s ≡ true
    → str_lt s t ≡ true
    → starts_with p t ≡ false
past_prefix_lem [] s t h k l = cc
past_prefix_lem (a ∷ p) s [] h k l = refl
past_prefix_lem (a ∷ p) [] (c ∷ t) h k l = cc
past_prefix_lem (a ∷ p) (b ∷ s) (c ∷ t) h k l = ground (arith, past_prefix_lem p s t)

pub starts_with-not_lt : (p t : Str) → str_lt t p ≡ true → starts_with p t ≡ false
starts_with-not_lt [] t h = cc
starts_with-not_lt (a ∷ p) [] h = refl
starts_with-not_lt (a ∷ p) (b ∷ t) h = ground (arith, starts_with-not_lt p t)

abbrev pub Ascending : List Str → Type 0
Ascending [] = Unit
Ascending (x ∷ xs) = All (λ y. str_lt x y ≡ true) xs × Ascending xs

-- No text occurs twice.
abbrev pub AreDistinct : List Str → Type 0
AreDistinct [] = Unit
AreDistinct (x ∷ xs) = All (λ y. x ≢ y) xs × AreDistinct xs

pub All-imp {ℓ κ μ} :
    {A : Type ℓ} {P : A → Type κ} {Q : A → Type μ} (xs : List A)
    → ((x : A) → P x → Q x)
    → All P xs
    → All Q xs
All-imp [] f h = tt
All-imp (x ∷ xs) f h = (f x h.0, All-imp xs f h.1)

pub All-insert_sorted {κ} :
    (P : Str → Type κ) (s : Str) (ts : List Str) → P s → All P ts → All P (insert_sorted s ts)
unfolding insert_sorted
All-insert_sorted P s [] h k = (h, tt)
All-insert_sorted P s (t ∷ ts) h k = elim (Bool-cases (str_lt t s)) [
  | inl e ↦ rw e (k.0, All-insert_sorted P s ts h k.1)
  | inr e ↦ rw e (h, k)
]

insert_sorted-Ascending :
    (s : Str) (ts : List Str) → All (λ t. s ≢ t) ts → Ascending ts → Ascending (insert_sorted s ts)
unfolding insert_sorted
insert_sorted-Ascending s [] ne h = (tt, tt)
insert_sorted-Ascending s (t ∷ ts) ne h = elim (Bool-cases (str_lt t s)) [
  | inl e ↦
      rw e (
        All-insert_sorted (λ y. str_lt t y ≡ true) s ts e h.0,
        insert_sorted-Ascending s ts ne.1 h.1,
      )
  | inr e ↦ rw e (
      let below : str_lt s t ≡ true = str_lt_total t s e (λ same. ne.0 (sym same)) in
      ((below, All-imp ts (λ y k. str_lt_trans s t y below k) h.0), h))
]

All-sort_paths {κ} : (P : Str → Type κ) (ss : List Str) → All P ss → All P (sort_paths ss)
unfolding sort_paths
All-sort_paths P [] h = tt
All-sort_paths P (s ∷ ss) h = All-insert_sorted P s (sort_paths ss) h.0 (All-sort_paths P ss h.1)

-- Sorting distinct texts gives an ascending list.
pub sort_paths-Ascending : (ss : List Str) → AreDistinct ss → Ascending (sort_paths ss)
unfolding sort_paths
sort_paths-Ascending [] h = tt
sort_paths-Ascending (s ∷ ss) h =
    insert_sorted-Ascending s (sort_paths ss) (All-sort_paths (λ t. s ≢ t) ss h.0)
      (sort_paths-Ascending ss h.1)
