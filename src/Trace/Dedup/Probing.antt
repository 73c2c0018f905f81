-- ===== src/Trace/Dedup/Probing.antt =====
-- The search in the table of slots.
use auto_waveform_debugger.Base.{
  ℕ, zero, suc, ◌+◌, ◌%◌, ◌≤◌, ◌<◌, ◌≡◌, ◌≢◌, ◌⊎◌, refl, sym, ap, ◌∙◌, true, false, none, some,
  List, if◌then◌else◌, ltb, ◌==◌, arith, Bool-cases, Option-cases, inl, inr, is_some,
}
use mathlib.Core.Path.{subst}
use native.Mathlib.Nat.{mod-eq_of_lt, mod_self}
use auto_waveform_debugger.Trace.Dedup.{
  Slot, Slots, next_position, duplicate, vacant, exhausted, Keys, matches, probe,
}

next_position_cases :
    (capacity p : ℕ)
    → p < capacity
    → ((p + 1 < capacity) × (next_position capacity p ≡ p + 1))
      ⊎ ((p + 1 ≡ capacity) × (next_position capacity p ≡ 0))
next_position_cases capacity p h = elim (Bool-cases (ltb (p + 1) capacity)) [
  | inl below ↦ inl (ground arith, grind (arith, mod-eq_of_lt))
  | inr last ↦
      let end : p + 1 ≡ capacity = ground arith in
      inr (end, ap (λ t. t % capacity) end ∙ mod_self capacity)
]

-- From one position to another in so many steps, over occupied slots.
abbrev pub Reaches : Slots → ℕ → ℕ → ℕ → ℕ → Type 0
Reaches slots capacity zero p q = p ≡ q
Reaches slots capacity (suc d) p q =
    (is_some (slots p) ≡ true) × Reaches slots capacity d (next_position capacity p) q

module _ {E : Type 0} (keys : Keys E) (endpoints : List E) (slots : Slots) (capacity : ℕ)
    (e : E) where
  -- A search that finds an equal entry has found a slot that matches.
  pub probe-duplicate :
      (fuel p : ℕ)
      → probe keys endpoints slots capacity fuel p e ≡ duplicate
      → (q : ℕ) × (slot : Slot) × (slots q ≡ some slot) × (matches keys endpoints slot e ≡ true)
  unfolding probe
  probe-duplicate zero p h = cc
  probe-duplicate (suc fuel) p h = elim (Option-cases (slots p)) [
    | inl free ↦ cc (rw (probe, free) at h)
    | inr (slot, taken) ↦ elim (Bool-cases (matches keys endpoints slot e)) [
      | inl found ↦ (p, slot, taken, found)
      | inr other ↦ probe-duplicate fuel (next_position capacity p) (rw (probe, taken, other) at h)
    ]
  ]

  not_from_vacant :
      (p : ℕ)
      → slots p ≡ none
      → (k q : ℕ) (slot : Slot) → Reaches slots capacity k p q
      → slots q ≡ some slot
      → matches keys endpoints slot e ≡ false
  not_from_vacant p free zero q slot r t = cc (free, ap slots r, t)
  not_from_vacant p free (suc k) q slot r t = cc (ap is_some free, r.0)

  not_from_other :
      (p : ℕ) (other : Slot)
      → slots p ≡ some other
      → matches keys endpoints other e ≡ false
      → ((k q : ℕ) (slot : Slot)
          → Reaches slots capacity k (next_position capacity p) q
          → slots q ≡ some slot
          → matches keys endpoints slot e ≡ false)
      → (k q : ℕ) (slot : Slot) → Reaches slots capacity k p q
      → slots q ≡ some slot
      → matches keys endpoints slot e ≡ false
  not_from_other p other taken differs behind zero q slot r t =
      let same : other ≡ slot = cc (taken, ap slots r, t) in
      subst (λ s. matches keys endpoints s e ≡ false) same differs
  not_from_other p other taken differs behind (suc k) q slot r t = behind k q slot r.1 t

  -- A search that ends at an empty slot has come there over occupied slots, and no slot on the way
  -- matches.
  pub probe-vacant :
      (fuel p r : ℕ)
      → probe keys endpoints slots capacity fuel p e ≡ vacant r
      → (slots r ≡ none)
        × ((d : ℕ) × Reaches slots capacity d p r)
        × ((k q : ℕ) (slot : Slot)
            → Reaches slots capacity k p q
            → slots q ≡ some slot
            → matches keys endpoints slot e ≡ false)
  unfolding probe
  probe-vacant zero p r h = cc
  probe-vacant (suc fuel) p r h = elim (Option-cases (slots p)) [
    | inl free ↦
        let here : p ≡ r = cc (rw (probe, free) at h) in
        (ap slots (sym here) ∙ free, (0, here), not_from_vacant p free)
    | inr (slot, taken) ↦ elim (Bool-cases (matches keys endpoints slot e)) [
      | inl found ↦ cc (rw (probe, taken, found) at h)
      | inr other ↦
          let (free, (d, reached), behind) =
            probe-vacant fuel (next_position capacity p) r (rw (probe, taken, other) at h) in
          (free, (suc d, (ap is_some taken, reached)), not_from_other p slot taken other behind)
    ]
  ]

  -- A search without an end has passed all positions from its first on, and those that come behind
  -- the end of the table.
  probe-exhausted :
      (fuel p : ℕ)
      → p < capacity
      → probe keys endpoints slots capacity fuel p e ≡ exhausted
      → (q : ℕ) → q < capacity
      → ((p ≤ q) × (q < p + fuel)) ⊎ (q + capacity < p + fuel)
      → is_some (slots q) ≡ true
  unfolding probe
  probe-exhausted zero p below h q inside there = absurd (ground arith)
  probe-exhausted (suc fuel) p below h q inside there = elim (Option-cases (slots p)) [
    | inl free ↦ cc (rw (probe, free) at h)
    | inr (slot, taken) ↦ elim (Bool-cases (matches keys endpoints slot e)) [
      | inl found ↦ cc (rw (probe, taken, found) at h)
      | inr other ↦
          let rest = rw (probe, taken, other) at h in
          elim (Bool-cases (q == p)) [
            | inl here ↦ ap (λ t. is_some (slots t)) (ground arith) ∙ ap is_some taken
            | inr away ↦ elim (next_position_cases capacity p below) [
              | inl (small, next) ↦
                  probe-exhausted fuel (next_position capacity p) (omega arith) rest q inside
                    (ground arith)
              | inr (last, next) ↦
                  probe-exhausted fuel (next_position capacity p) (omega arith) rest q inside
                    (ground arith)
            ]
          ]
    ]
  ]

-- How many of the first n slots are occupied.
abbrev pub occupied : Slots → ℕ → ℕ
occupied slots zero = 0
occupied slots (suc n) = (if is_some (slots n) then 1 else 0) + occupied slots n

occupied-full :
    (slots : Slots) (n : ℕ) → ((q : ℕ) → q < n → is_some (slots q) ≡ true) → occupied slots n ≡ n
occupied-full slots zero h = refl
occupied-full slots (suc n) h =
    ground (arith, h n, occupied-full slots n (λ q k. h q (omega arith)))

reached :
    (capacity p q : ℕ)
    → q < capacity
    → ((p ≤ q) × (q < p + capacity)) ⊎ (q + capacity < p + capacity)
reached capacity p q inside = elim (Bool-cases (ltb q p)) [
  | inl before ↦ inr (ground arith)
  | inr from ↦ inl (ground arith, ground arith)
]

-- In a table that is not full a search ends.
pub probe-ends :
    {E : Type 0} (keys : Keys E) (endpoints : List E) (slots : Slots) (capacity : ℕ) (e : E) (p : ℕ)
    → p < capacity
    → occupied slots capacity < capacity
    → probe keys endpoints slots capacity capacity p e ≢ exhausted
probe-ends keys endpoints slots capacity e p below room h =
    let full = occupied-full slots capacity (λ q inside.
      probe-exhausted keys endpoints slots capacity e capacity p below h q inside
        (reached capacity p q inside)) in
    omega arith
