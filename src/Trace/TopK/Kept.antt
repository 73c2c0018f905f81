-- ===== src/Trace/TopK/Kept.antt =====
-- One collector: it keeps the least items of those that were pushed.
use mathlib.Core.Path.{subst}
use native.Mathlib.Decide.{dec_lt}
use auto_waveform_debugger.Base.{
  ℕ, zero, suc, ◌≤◌, ◌<◌, ◌≡◌, refl, sym, ap, ◌∙◌, Bool, true, false, List, [], ◌∷◌, ◌++◌, length,
  take, arith, All, Bool-cases, inl, inr,
}
use auto_waveform_debugger.Trace.TopK.{
  insert_by, insert_all, sort_by, push_heap, replace_front, push, push_all,
}
use auto_waveform_debugger.Trace.TopK.Sorted.{
  IsOrder, take_all, length-take_le, insert_comm, insert-inserts, take-insert, length-insert,
  length-sort, inserts-insert, take-append,
}

module _ {ℓ} {A : Type ℓ} (less : A → A → Bool) (order : IsOrder less) where
  open order use {asym, trans, total}

  -- No item is greater than the one before it.
  abbrev pub Descending : List A → Type ℓ
  Descending [] = Unit
  Descending (x ∷ xs) = All (λ y. less x y ≡ false) xs × Descending xs

  le_trans : (x y z : A) → less x y ≡ false → less y z ≡ false → less x z ≡ false
  le_trans x y z h k = elim (Bool-cases (less x z)) [
    | inr e ↦ e
    | inl e ↦
        ground (arith, asym x z, asym z y, total y z, trans x z y, trans z y x, total x y, asym x y)
  ]

  All-push_heap {κ} :
      (P : A → Type κ) (x : A) (s : List A) → P x → All P s → All P (push_heap less x s)
  unfolding push_heap
  All-push_heap P x [] h k = (h, tt)
  All-push_heap P x (y ∷ ys) h k = elim (Bool-cases (less y x)) [
    | inl e ↦ rw e (h, k)
    | inr e ↦ rw e (k.0, All-push_heap P x ys h k.1)
  ]

  All-not_lt :
      (x y : A) (s : List A)
      → less x y ≡ false
      → All (λ z. less y z ≡ false) s
      → All (λ z. less x z ≡ false) s
  All-not_lt x y [] h k = tt
  All-not_lt x y (z ∷ s) h k = (le_trans x y z h k.0, All-not_lt x y s h k.1)

  Descending-push_heap : (x : A) (s : List A) → Descending s → Descending (push_heap less x s)
  unfolding push_heap
  Descending-push_heap x [] d = (tt, tt)
  Descending-push_heap x (y ∷ ys) d = elim (Bool-cases (less y x)) [
    | inl e ↦ rw e ((asym y x e, All-not_lt x y ys (asym y x e) d.0), d)
    | inr e ↦ rw e (All-push_heap (λ z. less y z ≡ false) x ys e d.0, Descending-push_heap x ys d.1)
  ]

  sort-push_heap :
      (x : A) (s : List A) → sort_by less (push_heap less x s) ≡ insert_by less x (sort_by less s)
  unfolding push_heap insert_all
  sort-push_heap x [] = refl
  sort-push_heap x (y ∷ ys) = elim (Bool-cases (less y x)) [
    | inl e ↦ rw e refl
    | inr e ↦
        rw e (
          ap (insert_by less y) (sort-push_heap x ys)
          ∙ insert_comm less order y x (sort_by less ys))
  ]

  All-insert {κ} :
      (P : A → Type κ) (x : A) (s : List A) → P x → All P s → All P (insert_by less x s)
  unfolding insert_by
  All-insert P x [] h k = (h, tt)
  All-insert P x (y ∷ ys) h k = elim (Bool-cases (less x y)) [
    | inl e ↦ rw e (h, k)
    | inr e ↦ rw e (k.0, All-insert P x ys h k.1)
  ]

  -- What is not less than any item goes to the end.
  insert_greatest :
      (m : A) (s : List A) → All (λ y. less m y ≡ false) s → insert_by less m s ≡ s ++ m ∷ []
  unfolding insert_by
  insert_greatest m [] h = refl
  insert_greatest m (y ∷ ys) h = rw h.0 (ap (λ t. y ∷ t) (insert_greatest m ys h.1))

  sort-greatest :
      (m : A) (s : List A)
      → All (λ y. less m y ≡ false) s
      → insert_by less m (sort_by less s) ≡ sort_by less s ++ m ∷ []
  unfolding insert_all
  sort-greatest m s h = insert_greatest m (sort_by less s) (all s h)
    where
      all :
          (t : List A)
          → All (λ y. less m y ≡ false) t
          → All (λ y. less m y ≡ false) (sort_by less t)
      all [] k = tt
      all (y ∷ t) k = All-insert (λ z. less m z ≡ false) y (sort_by less t) k.0 (all t k.1)

  -- A lesser item takes the place of the last one.
  displace :
      (x m : A) (s : List A)
      → less x m ≡ true
      → take (suc (length s)) (insert_by less x (s ++ m ∷ [])) ≡ insert_by less x s
  unfolding insert_by
  displace x m [] h = rw h refl
  displace x m (y ∷ ys) h = elim (Bool-cases (less x y)) [
    | inl e ↦ rw e (ap (λ t. x ∷ y ∷ t) (take-append ys (m ∷ [])))
    | inr e ↦ rw e (ap (λ t. y ∷ t) (displace x m ys h))
  ]

  -- The items are the k least of the sorted list S, and the front is the greatest of them.
  pub record Kept (k : ℕ) (S items : List A) : Type ℓ where
    pub sorted : sort_by less S ≡ S
    pub least : sort_by less items ≡ take k S
    pub ordered : Descending items

  length-Kept : (k : ℕ) (S items : List A) → Kept k S items → length items ≤ k
  length-Kept k S items h =
      omega (arith, length-sort less order items, ap length h.least, length-take_le {ℓ} k S)

  insert-sorted :
      (x : A) (S : List A)
      → sort_by less S ≡ S
      → sort_by less (insert_by less x S) ≡ insert_by less x S
  insert-sorted x S h = inserts-insert less order x S [] ∙ ap (insert_by less x) h

  module _ (k : ℕ) (x : A) (S : List A) where
    least_room :
        (items : List A)
        → Kept k S items
        → length items < k
        → sort_by less (push_heap less x items) ≡ take k (insert_by less x S)
    least_room items h room =
        sort-push_heap x items
        ∙ sym (
            take_all k (insert_by less x (sort_by less items)) (
              omega (
                arith,
                length-insert less order x (sort_by less items),
                length-sort less order items,
              )))
        ∙ ap (λ t. take k (insert_by less x t)) h.least
        ∙ take-insert less order k x S

    least_full :
        (m : A) (rest : List A)
        → Kept k S (m ∷ rest)
        → k ≡ suc (length rest)
        → sort_by less (replace_front less x (m ∷ rest)) ≡ take k (insert_by less x S)
    unfolding insert_all
    least_full m rest h full = elim (Bool-cases (less x m)) [
      | inl e ↦ rw e (
          sort-push_heap x rest
          ∙ sym (displace x m (sort_by less rest) e)
          ∙ ap (λ n. take (suc n) (insert_by less x (sort_by less rest ++ m ∷ [])))
              (length-sort less order rest)
          ∙ ap (λ n. take n (insert_by less x (sort_by less rest ++ m ∷ []))) (sym full)
          ∙ ap (λ t. take k (insert_by less x t)) (sym (sort-greatest m rest h.ordered.0) ∙ h.least)
          ∙ take-insert less order k x S)
      | inr e ↦ rw e (
          sym (take-append (sort_by less (m ∷ rest)) (x ∷ []))
          ∙ ap (λ n. take n (sort_by less (m ∷ rest) ++ x ∷ []))
              (length-sort less order (m ∷ rest) ∙ sym full)
          ∙ ap (take k) (sym (sort-greatest x (m ∷ rest) (e, All-not_lt x m rest e h.ordered.0)))
          ∙ ap (λ t. take k (insert_by less x t)) h.least
          ∙ take-insert less order k x S)
    ]

  push_room :
      (k : ℕ) (x : A) (items : List A)
      → length items < k
      → push less k x items ≡ push_heap less x items
  unfolding push
  push_room k x items h = ground arith

  push_full :
      (k : ℕ) (x : A) (items : List A)
      → length items ≡ k
      → 0 < k
      → push less k x items ≡ replace_front less x items
  unfolding push
  push_full k x items h p = ground arith

  replace_front-Descending :
      (x : A) (items : List A) → Descending items → Descending (replace_front less x items)
  replace_front-Descending x [] h = tt
  replace_front-Descending x (m ∷ rest) h = elim (Bool-cases (less x m)) [
    | inl e ↦ rw e (Descending-push_heap x rest h.1)
    | inr e ↦ rw e h
  ]

  push_positive :
      (k : ℕ) (x : A) (S items : List A)
      → 0 < k
      → Kept k S items
      → (sort_by less (push less k x items) ≡ take k (insert_by less x S))
        × Descending (push less k x items)
  push_positive k x S items p h = elim (dec_lt (length items) k) [
    | yes room ↦
        rw (push_room k x items room)
          (least_room k x S items h room, Descending-push_heap x items h.ordered)
    | no other ↦
        let full : length items ≡ k = omega (arith, length-Kept k S items h) in
        rw (push_full k x items full p)
          (least k x S items h full p, replace_front-Descending x items h.ordered)
  ]
    where
      least :
          (k : ℕ) (x : A) (S items : List A)
          → Kept k S items
          → length items ≡ k
          → 0 < k
          → sort_by less (replace_front less x items) ≡ take k (insert_by less x S)
      least k x S [] h full p = absurd (omega arith)
      least k x S (m ∷ rest) h full p = least_full k x S m rest h (sym full)

  pub push-Kept :
      (k : ℕ) (x : A) (S items : List A)
      → Kept k S items
      → Kept k (insert_by less x S) (push less k x items)
  push-Kept zero x S items h = record {
    sorted = insert-sorted x S h.sorted;
    least = unfold push in h.least;
    ordered = unfold push in h.ordered;
  }
  push-Kept (suc k) x S items h =
      let (least, ordered) = push_positive (suc k) x S items (omega arith) h in
      record { sorted = insert-sorted x S h.sorted; least = least; ordered = ordered }

  pub push_all-Kept :
      (k : ℕ) (xs S items : List A)
      → Kept k S items
      → Kept k (insert_all less xs S) (push_all less k xs items)
  unfolding insert_all
  push_all-Kept k [] S items h = h
  push_all-Kept k (x ∷ xs) S items h =
      subst (λ T. Kept k T (push_all less k xs (push less k x items)))
        (sym (insert-inserts less order x xs S))
        (push_all-Kept k xs (insert_by less x S) (push less k x items) (push-Kept k x S items h))
