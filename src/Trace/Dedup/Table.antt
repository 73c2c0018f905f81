-- ===== src/Trace/Dedup/Table.antt =====
-- The table of slots holds the entries that have been kept, and a search finds equal ones.
use auto_waveform_debugger.Base.{
  ℕ, zero, suc, ◌+◌, ◌%◌, ◌≤◌, ◌≡◌, ◌⊎◌, refl, sym, ap, ◌∙◌, Bool, true, false, none, some, List,
  [], ◌∷◌, if◌then◌else◌, ltb, ◌==◌, get_elem?, arith, Bool-cases, inl, inr,
}
use mathlib.Core.Path.{subst}
use auto_waveform_debugger.Api.Signals.Listed.{any}
use auto_waveform_debugger.Trace.Dedup.{
  Slot, Slots, next_position, Probe, duplicate, vacant, exhausted, Keys, matches, probe, fill,
}
use auto_waveform_debugger.Trace.Dedup.Probing.{Reaches, probe-duplicate, probe-vacant, occupied}

abbrev pub Member : {E : Type 0} → E → List E → Type 0
Member x [] = ⊥
Member x (y ∷ ys) = (x ≡ y) ⊎ Member x ys

any-Member :
    {E : Type 0} (f : E → Bool) (xs : List E)
    → any f xs ≡ true
    → (x : E) × Member x xs × (f x ≡ true)
any-Member f [] h = cc
any-Member f (x ∷ xs) h = elim (Bool-cases (f x)) [
  | inl e ↦ (x, inl refl, e)
  | inr n ↦ let (y, m, e) = any-Member f xs (ground arith) in (y, inr m, e)
]

Member-any :
    {E : Type 0} (f : E → Bool) (x : E) (xs : List E) → Member x xs → f x ≡ true → any f xs ≡ true
Member-any f x [] m h = absurd m
Member-any f x (y ∷ ys) (inl e) h = ground arith
Member-any f x (y ∷ ys) (inr m) h = ground (arith, Member-any f x ys m h)

pub Probe-cases : (r : Probe) → (r ≡ duplicate) ⊎ (((p : ℕ) × (r ≡ vacant p)) ⊎ (r ≡ exhausted))
Probe-cases duplicate = inl refl
Probe-cases (vacant p) = inr (inl (p, refl))
Probe-cases exhausted = inr (inr refl)

module _ {E : Type 0} (keys : Keys E) where
  -- Equal entries have equal hashes.
  abbrev pub RespectsHash : Type 0
  RespectsHash = (a b : E) → keys.same a b ≡ true → keys.hash a ≡ keys.hash b

module _ {E : Type 0} (keys : Keys E) (endpoints : List E) (capacity : ℕ) where
  -- A slot for an entry that has been seen.
  abbrev pub IsSlotOf : Slots → List E → Slot → E → Type 0
  IsSlotOf slots seen slot x =
      (get_elem? endpoints slot.index ≡ some x) × (slot.hash ≡ keys.hash x) × Member x seen

  pub record IsTable (slots : Slots) (seen : List E) : Type 0 where
    pub sound : (q : ℕ) (slot : Slot) → slots q ≡ some slot → (x : E) × IsSlotOf slots seen slot x
    pub complete :
        (x : E)
        → Member x seen
        → (q : ℕ) × (slot : Slot) × (slots q ≡ some slot)
          × IsSlotOf slots seen slot x
          × ((d : ℕ) × Reaches slots capacity d (keys.hash x % capacity) q)

  pub duplicate-any :
      (slots : Slots) (seen : List E) (fuel p : ℕ) (e : E)
      → IsTable slots seen
      → probe keys endpoints slots capacity fuel p e ≡ duplicate
      → any (λ x. keys.same x e) seen ≡ true
  duplicate-any slots seen fuel p e table h =
      let (q, slot, taken, match) = probe-duplicate keys endpoints slots capacity e fuel p h in
      let (x, (found, hashed, member)) = table.sound q slot taken in
      Member-any (λ x. keys.same x e) x seen member (ground (arith, found, match))

  pub vacant-any :
      (slots : Slots) (seen : List E) (fuel r : ℕ) (e : E)
      → RespectsHash keys
      → IsTable slots seen
      → probe keys endpoints slots capacity fuel (keys.hash e % capacity) e ≡ vacant r
      → any (λ x. keys.same x e) seen ≡ false
  vacant-any slots seen fuel r e respects table h =
      elim (Bool-cases (any (λ x. keys.same x e) seen)) [
        | inl old ↦
            let (x, member, same) = any-Member (λ x. keys.same x e) seen old in
            let (q, slot, taken, (found, hashed, m), (d, reached)) = table.complete x member in
            let (free, way, differs) =
              probe-vacant keys endpoints slots capacity e fuel (keys.hash e % capacity) r h in
            let equal : keys.hash x ≡ keys.hash e = respects x e same in
            let no_match =
              differs d q slot
                (subst (λ t. Reaches slots capacity d (t % capacity) q) equal reached) taken in
            let match : matches keys endpoints slot e ≡ true =
              ground (arith, found, hashed, equal, same) in
            cc (match, no_match)
        | inr new ↦ new
      ]

  Reaches-fill :
      (slots : Slots) (r : ℕ) (slot : Slot) (d p q : ℕ)
      → Reaches slots capacity d p q
      → Reaches (fill keys slots r slot) capacity d p q
  Reaches-fill slots r slot zero p q h = h
  Reaches-fill slots r slot (suc d) p q h =
      (ground (arith, h.0), Reaches-fill slots r slot d (next_position capacity p) q h.1)

  fill-other :
      (slots : Slots) (r : ℕ) (new slot : Slot) (q : ℕ)
      → slots r ≡ none
      → slots q ≡ some slot
      → fill keys slots r new q ≡ some slot
  fill-other slots r new slot q free taken = elim (Bool-cases (q == r)) [
    | inl same ↦ let e : q ≡ r = ground arith in cc (free, taken, ap slots e)
    | inr other ↦ rw other taken
  ]

  fill_self : (slots : Slots) (r : ℕ) (new : Slot) → fill keys slots r new r ≡ some new
  fill_self slots r new = ground arith

  pub fill-IsTable :
      (slots : Slots) (seen : List E) (i r : ℕ) (e : E)
      → IsTable slots seen
      → get_elem? endpoints i ≡ some e
      → slots r ≡ none
      → ((d : ℕ) × Reaches slots capacity d (keys.hash e % capacity) r)
      → IsTable (fill keys slots r (record { index = i; hash = keys.hash e })) (e ∷ seen)
  fill-IsTable slots seen i r e table at free (d, way) =
      let new : Slot = record { index = i; hash = keys.hash e } in
      record {
        sound = λ q slot taken. elim (Bool-cases (q == r)) [
          | inl here ↦
              let same : new ≡ slot = cc (rw here at taken) in
              (
                e,
                (
                  ap (λ s. get_elem? endpoints s.index) (sym same) ∙ at,
                  ap (λ s. s.hash) (sym same),
                  inl refl,
                ),
              )
          | inr other ↦
              let (x, (found, hashed, member)) = table.sound q slot (rw other at taken) in
              (x, (found, hashed, inr member))
        ];
        complete = λ x member. elim member [
          | inl same ↦ (
            r,
            new,
            fill_self slots r new,
            (cc (at, same), ap keys.hash (sym same), inl same),
            (
              d,
              subst (λ t. Reaches (fill keys slots r new) capacity d (keys.hash t % capacity) r)
                  (sym same) (Reaches-fill slots r new d (keys.hash e % capacity) r way),
            ),
          )
          | inr old ↦
              let (q, slot, taken, (found, hashed, m), (k, reached)) = table.complete x old in
              (
                q,
                slot,
                fill-other slots r new slot q free taken,
                (found, hashed, inr m),
                (k, Reaches-fill slots r new k (keys.hash x % capacity) q reached),
              )
        ];
      }

  occupied-fill :
      (slots : Slots) (r : ℕ) (new : Slot) (n : ℕ)
      → occupied (fill keys slots r new) n ≤ occupied slots n + (if ltb r n then 1 else 0)
  occupied-fill slots r new zero = omega arith
  occupied-fill slots r new (suc n) = ground (arith, occupied-fill slots r new n)

  pub occupied-fill-le :
      (slots : Slots) (r : ℕ) (new : Slot)
      → occupied (fill keys slots r new) capacity ≤ occupied slots capacity + 1
  occupied-fill-le slots r new = ground (arith, occupied-fill slots r new capacity)
