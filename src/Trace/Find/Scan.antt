-- ===== src/Trace/Find/Scan.antt =====
-- The scan of the names: it pushes, index by index, what each name emits.
use auto_waveform_debugger.Base.{
  ℕ, zero, suc, ◌+◌, ◌-◌, ◌≡◌, refl, sym, ap, ◌∙◌, Bool, true, false, Option, none, some, List, [],
  ◌∷◌, ◌++◌, Str, length, get_elem?, arith,
}
use auto_waveform_debugger.Base.Text.{str_lt}
use auto_waveform_debugger.Trace.TopK.{push, push_all}
use auto_waveform_debugger.Trace.TopK.Workers.{emits, suc-add}
use auto_waveform_debugger.Trace.TopK.Sorted.{IsOrder}
use auto_waveform_debugger.Wave.Database.Paths.Order.{str_lt_trans}
use auto_waveform_debugger.Trace.Find.{scan_names, Scored, scored_less}

-- Everything that the names emit, in their order.
abbrev pub emit_all {ℓ} : {A : Type ℓ} → (Str → List A) → List Str → List A
emit_all emit [] = []
emit_all emit (name ∷ names) = emit name ++ emit_all emit names

abbrev pub emit_at {ℓ} : {A : Type ℓ} → (Str → List A) → List Str → ℕ → List A
emit_at emit names i = elim (get_elem? names i) [ none ↦ [] | some name ↦ emit name ]

emits-cons {ℓ} :
    {A : Type ℓ} (emit : Str → List A) (name : Str) (names : List Str) (b m : ℕ)
    → emits (emit_at emit (name ∷ names)) (suc b) m ≡ emits (emit_at emit names) b m
emits-cons emit name names b zero = refl
emits-cons emit name names b (suc m) =
    ap (λ t. emit_at emit names b ++ t)
      (ap (λ c. emits (emit_at emit (name ∷ names)) c m) (suc-add b 1)
        ∙ emits-cons emit name names (b + 1) m)

pub emits_lem {ℓ} :
    {A : Type ℓ} (emit : Str → List A) (names : List Str)
    → emits (emit_at emit names) 0 (length names) ≡ emit_all emit names
emits_lem emit [] = refl
emits_lem emit (name ∷ names) =
    ap (λ t. emit name ++ t) (emits-cons emit name names 0 (length names) ∙ emits_lem emit names)

push_all-append {ℓ} :
    {A : Type ℓ} (less : A → A → Bool) (k : ℕ) (xs ys items : List A)
    → push_all less k (xs ++ ys) items ≡ push_all less k ys (push_all less k xs items)
push_all-append less k [] ys items = refl
push_all-append less k (x ∷ xs) ys items = push_all-append less k xs ys (push less k x items)

module _ {ℓ} {A : Type ℓ} (less : A → A → Bool) (k : ℕ) (visit : Str → List A → List A)
    (emit : Str → List A) (names : List Str)
    (same : (i : ℕ) (name : Str)
      → get_elem? names i ≡ some name
      → (out : List A) → visit name out ≡ push_all less k (emit name) out) where
  visit_at :
      (i : ℕ) (o : Option Str)
      → get_elem? names i ≡ o
      → (out : List A)
      → (elim o [ none ↦ out | some name ↦ visit name out ])
        ≡ push_all less k (elim o [ none ↦ [] | some name ↦ emit name ]) out
  visit_at i none e out = refl
  visit_at i (some name) e out = same i name e out

  pub scan_names_lem :
      (b m : ℕ) (out : List A)
      → scan_names visit names b m out ≡ push_all less k (emits (emit_at emit names) b m) out
  unfolding scan_names
  scan_names_lem b zero out = refl
  scan_names_lem b (suc m) out =
      ap (scan_names visit names (b + 1) m) (visit_at b (get_elem? names b) refl out)
      ∙ scan_names_lem (b + 1) m (push_all less k (emit_at emit names b) out)
      ∙ sym
          (push_all-append less k (emit_at emit names b) (emits (emit_at emit names) (b + 1) m) out)

  sub_add : (b m : ℕ) → b + m - b ≡ m
  sub_add b m = omega arith

  pub scan_range_lem :
      (b m : ℕ) (out : List A)
      → scan_names visit names b (b + m - b) out
        ≡ push_all less k (emits (emit_at emit names) b m) out
  scan_range_lem b m out =
      ap (λ c. scan_names visit names b c out) (sub_add b m) ∙ scan_names_lem b m out

str_lt_asym : (s t : Str) → str_lt s t ≡ true → str_lt t s ≡ false
str_lt_asym s [] h = cc
str_lt_asym [] (b ∷ t) h = refl
str_lt_asym (a ∷ s) (b ∷ t) h = ground (arith, str_lt_asym s t)

str_lt_antisym : (s t : Str) → str_lt s t ≡ false → str_lt t s ≡ false → s ≡ t
str_lt_antisym [] [] h k = refl
str_lt_antisym [] (b ∷ t) h k = cc
str_lt_antisym (a ∷ s) [] h k = cc
str_lt_antisym (a ∷ s) (b ∷ t) h k = ground (arith, str_lt_antisym s t)

pub str_lt-IsOrder : IsOrder str_lt
str_lt-IsOrder = record { asym = str_lt_asym; trans = str_lt_trans; total = str_lt_antisym }

scored_asym : (x y : Scored) → scored_less x y ≡ true → scored_less y x ≡ false
unfolding scored_less
scored_asym (d, s) (e, t) h = ground (arith, str_lt_asym s t)

scored_trans :
    (x y z : Scored) → scored_less x y ≡ true → scored_less y z ≡ true → scored_less x z ≡ true
unfolding scored_less
scored_trans (d, s) (e, t) (f, u) h k = ground (arith, str_lt_trans s t u)

scored_total : (x y : Scored) → scored_less x y ≡ false → scored_less y x ≡ false → x ≡ y
unfolding scored_less
scored_total (d, s) (e, t) h k = ground (arith, str_lt_antisym s t)

pub scored_less-IsOrder : IsOrder scored_less
scored_less-IsOrder = record { asym = scored_asym; trans = scored_trans; total = scored_total }
