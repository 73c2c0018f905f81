-- ===== src/Trace/TopK/Sorted.antt =====
-- Sorting by a total order: insertions commute, and the least items of a list are found from the
-- least items of its parts.
use auto_waveform_debugger.Base.{
  ℕ, zero, suc, ◌≤◌, ◌≡◌, refl, sym, ap, ◌∙◌, Bool, true, false, List, [], ◌∷◌, ◌++◌, length, take,
  arith, Bool-cases, inl, inr,
}
use auto_waveform_debugger.Trace.TopK.{insert_by, insert_all, sort_by}

pub take_idem {ℓ} : {A : Type ℓ} (k : ℕ) (s : List A) → take k (take k s) ≡ take k s
take_idem zero s = refl
take_idem (suc k) [] = refl
take_idem (suc k) (x ∷ s) = ap (λ t. x ∷ t) (take_idem k s)

-- What stands behind the first k items does not matter for the first k.
take_cons {ℓ} : {A : Type ℓ} (k : ℕ) (x : A) (s : List A) → take k (x ∷ take k s) ≡ take k (x ∷ s)
take_cons zero x s = refl
take_cons (suc k) x [] = refl
take_cons (suc k) x (y ∷ s) = ap (λ t. x ∷ t) (take_cons k y s)

pub take_all {ℓ} : {A : Type ℓ} (k : ℕ) (s : List A) → length s ≤ k → take k s ≡ s
take_all zero [] h = refl
take_all zero (x ∷ s) h = absurd (omega arith)
take_all (suc k) [] h = refl
take_all (suc k) (x ∷ s) h = ap (λ t. x ∷ t) (take_all k s (omega arith))

pub take-append {ℓ} : {A : Type ℓ} (s t : List A) → take (length s) (s ++ t) ≡ s
take-append [] t = refl
take-append (x ∷ s) t = ap (λ u. x ∷ u) (take-append s t)

pub length-take_le {ℓ} : {A : Type ℓ} (k : ℕ) (s : List A) → length (take k s) ≤ k
length-take_le zero s = omega arith
length-take_le (suc k) [] = omega arith
length-take_le (suc k) (x ∷ s) = omega (arith, length-take_le k s)

-- A strict total order, by its test.
pub record IsOrder {ℓ} {A : Type ℓ} (less : A → A → Bool) : Type ℓ where
  pub asym : (x y : A) → less x y ≡ true → less y x ≡ false
  pub trans : (x y z : A) → less x y ≡ true → less y z ≡ true → less x z ≡ true
  pub total : (x y : A) → less x y ≡ false → less y x ≡ false → x ≡ y

module _ {ℓ} {A : Type ℓ} (less : A → A → Bool) (order : IsOrder less) where
  open order use {asym, trans, total}

  abbrev insert : A → List A → List A
  insert = insert_by less

  abbrev inserts : List A → List A → List A
  inserts = insert_all less

  abbrev sort : List A → List A
  sort = sort_by less

  pub insert_comm : (x y : A) (s : List A) → insert x (insert y s) ≡ insert y (insert x s)
  unfolding insert_by
  insert_comm x y [] = ground (arith, asym x y, total x y)
  insert_comm x y (z ∷ zs) =
      ground (arith, asym x y, total x y, trans x y z, trans y x z, insert_comm x y zs)

  pub insert-inserts : (x : A) (xs s : List A) → insert x (inserts xs s) ≡ inserts xs (insert x s)
  unfolding insert_all
  insert-inserts x [] s = refl
  insert-inserts x (y ∷ ys) s =
      insert_comm x y (inserts ys s) ∙ ap (insert y) (insert-inserts x ys s)

  pub inserts_comm : (xs ys s : List A) → inserts xs (inserts ys s) ≡ inserts ys (inserts xs s)
  unfolding insert_all
  inserts_comm [] ys s = refl
  inserts_comm (x ∷ xs) ys s =
      ap (insert x) (inserts_comm xs ys s) ∙ insert-inserts x ys (inserts xs s)

  pub inserts-append : (xs ys s : List A) → inserts (xs ++ ys) s ≡ inserts xs (inserts ys s)
  unfolding insert_all
  inserts-append [] ys s = refl
  inserts-append (x ∷ xs) ys s = ap (insert x) (inserts-append xs ys s)

  pub inserts-insert : (x : A) (ys s : List A) → inserts (insert x ys) s ≡ insert x (inserts ys s)
  unfolding insert_all insert_by
  inserts-insert x [] s = refl
  inserts-insert x (y ∷ ys) s = elim (Bool-cases (less x y)) [
    | inl before ↦ rw before refl
    | inr behind ↦
        rw behind (ap (insert y) (inserts-insert x ys s) ∙ insert_comm y x (inserts ys s))
  ]

  pub inserts-sort : (xs s : List A) → inserts (sort xs) s ≡ inserts xs s
  unfolding insert_all
  inserts-sort [] s = refl
  inserts-sort (x ∷ xs) s = inserts-insert x (sort xs) s ∙ ap (insert x) (inserts-sort xs s)

  pub take-insert :
      (k : ℕ) (x : A) (s : List A) → take k (insert x (take k s)) ≡ take k (insert x s)
  unfolding insert_by
  take-insert zero x s = refl
  take-insert (suc k) x [] = refl
  take-insert (suc k) x (y ∷ ys) = elim (Bool-cases (less x y)) [
    | inl before ↦ rw before (ap (λ t. x ∷ t) (take_cons k y ys))
    | inr behind ↦ rw behind (ap (λ t. y ∷ t) (take-insert k x ys))
  ]

  pub take-inserts :
      (k : ℕ) (xs s : List A) → take k (inserts xs (take k s)) ≡ take k (inserts xs s)
  unfolding insert_all
  take-inserts k [] s = take_idem k s
  take-inserts k (x ∷ xs) s =
      sym (take-insert k x (inserts xs (take k s)))
      ∙ ap (λ t. take k (insert x t)) (take-inserts k xs s)
      ∙ take-insert k x (inserts xs s)

  pub length-insert : (x : A) (s : List A) → length (insert x s) ≡ suc (length s)
  unfolding insert_by
  length-insert x [] = refl
  length-insert x (y ∷ ys) = ground (arith, length-insert x ys)

  pub length-sort : (xs : List A) → length (sort xs) ≡ length xs
  unfolding insert_all
  length-sort [] = refl
  length-sort (x ∷ xs) = length-insert x (sort xs) ∙ ap suc (length-sort xs)
