-- ===== src/Trace/Dedup/KeepsFirst.antt =====
-- The removal of equal endpoints keeps the first of each.
use auto_waveform_debugger.Base.{
  ℕ, zero, suc, ◌+◌, ◌*◌, ◌/◌, ◌%◌, ◌≤◌, ◌<◌, ◌≡◌, refl, sym, ap, ◌∙◌, Bool, true, false, Option,
  none, some, List, [], ◌∷◌, if◌then◌else◌, ltb, ◌==◌, length, get_elem?, arith, Bool-cases, inl,
  inr,
}
use native.Mathlib.Nat.{mod-lt}
use auto_waveform_debugger.Api.Signals.Listed.{any}
use auto_waveform_debugger.Trace.Dedup.{
  Slot, Slots, grow, capacity_for, Keys, probe, fill, mark, survivors, count_dropped, no_slots,
  removed_by, deduplicate,
}
use auto_waveform_debugger.Trace.Dedup.Probing.{probe-vacant, occupied, probe-ends}
use auto_waveform_debugger.Trace.Dedup.Table.{
  Probe-cases, RespectsHash, IsTable, duplicate-any, vacant-any, fill-IsTable, occupied-fill-le,
}

module _ {E : Type 0} (keys : Keys E) where
  -- What the function is to do: of equal entries the first stays, in the order of the list.
  unfoldable pub keep_first : List E → List E → List E
  keep_first seen [] = []
  keep_first seen (e ∷ es) =
      let without = keep_first seen es in
      let with = keep_first (e ∷ seen) es in
      if any (λ x. keys.same x e) seen then without else e ∷ with

module _ {E : Type 0} (keys : Keys E) (endpoints : List E) (capacity : ℕ)
    (respects : RespectsHash keys) where
  -- The entries from the i-th on.
  abbrev IsRest : ℕ → List E → Type 0
  IsRest i es = (k : ℕ) → get_elem? endpoints (i + k) ≡ get_elem? es k

  IsRest-tail : (i : ℕ) (e : E) (es : List E) → IsRest i (e ∷ es) → IsRest (i + 1) es
  IsRest-tail i e es h k = ap (get_elem? endpoints) (omega arith) ∙ h (suc k)

  -- The flags for the entries, of which those that are not dropped are the first of each.
  abbrev Marks : Option (List Bool) → List E → List E → Type 0
  Marks flags seen es =
      (fs : List Bool) × (flags ≡ some fs)
      × (length fs ≡ length es)
      × (survivors keys fs es ≡ keep_first keys seen es)

  mark_lem :
      (slots : Slots) (seen : List E) (i : ℕ) (es : List E)
      → IsTable keys endpoints capacity slots seen
      → IsRest i es
      → occupied slots capacity ≤ i
      → i + length es < capacity
      → Marks (mark keys endpoints capacity slots i es) seen es
  unfolding mark survivors keep_first
  mark_lem slots seen i [] table rest few room = ([], refl, refl, refl)
  mark_lem slots seen i (e ∷ es) table rest few room =
      let start : ℕ = keys.hash e % capacity in
      let below : start < capacity = mod-lt (keys.hash e) (omega arith) in
      elim (Probe-cases (probe keys endpoints slots capacity capacity start e)) [
        | inl found ↦
            let (fs, marked, same_length, kept) =
              mark_lem slots seen (i + 1) es table (IsRest-tail i e es rest) (omega arith)
                (omega arith) in
            (
              true ∷ fs,
              rw (found, marked) refl,
              ap suc same_length,
              rw (duplicate-any keys endpoints capacity slots seen capacity start e table found)
                  kept,
            )
        | inr (inl (r, ended)) ↦
            let new : Slot = record { index = i; hash = keys.hash e } in
            let (free, way, differs) =
              probe-vacant keys endpoints slots capacity e capacity start r ended in
            let (fs, marked, same_length, kept) =
              mark_lem (fill keys slots r new) (e ∷ seen) (i + 1) es
                (fill-IsTable keys endpoints capacity slots seen i r e table
                  (ap (get_elem? endpoints) (omega arith) ∙ rest 0) free way)
                (IsRest-tail i e es rest)
                (omega (arith, occupied-fill-le keys endpoints capacity slots r new))
                (omega arith) in
            (
              false ∷ fs,
              rw (ended, marked) refl,
              ap suc same_length,
              rw (vacant-any keys endpoints capacity slots seen capacity r e respects table ended)
                  (ap (λ t. e ∷ t) kept),
            )
        | inr (inr endless) ↦
            absurd (probe-ends keys endpoints slots capacity e start below (omega arith) endless)
      ]

grow_lem : (fuel size c : ℕ) → 2 ≤ c → size ≤ c / 2 + fuel → size ≤ grow fuel size c / 2
unfolding grow
grow_lem zero size c h k = omega arith
grow_lem (suc fuel) size c h k = ground (arith, grow_lem fuel size (c * 2))

capacity_for_lem : (retained size : ℕ) → size ≤ capacity_for retained size / 2
unfolding capacity_for
capacity_for_lem retained size = ground (arith, grow_lem size size 8)

occupied-none : (n : ℕ) → occupied (λ position. none) n ≡ 0
occupied-none zero = refl
occupied-none (suc n) = ground (arith, occupied-none n)

module _ {E : Type 0} (keys : Keys E) where
  count_dropped-survivors :
      (flags : List Bool) (es : List E)
      → length flags ≡ length es
      → count_dropped keys flags + length (survivors keys flags es) ≡ length es
  unfolding count_dropped survivors
  count_dropped-survivors [] [] h = omega arith
  count_dropped-survivors [] (e ∷ es) h = absurd (omega arith)
  count_dropped-survivors (f ∷ flags) [] h = absurd (omega arith)
  count_dropped-survivors (true ∷ flags) (e ∷ es) h =
      omega (arith, count_dropped-survivors flags es (omega arith))
  count_dropped-survivors (false ∷ flags) (e ∷ es) h =
      omega (arith, count_dropped-survivors flags es (omega arith))

  none_dropped :
      (flags : List Bool) (es : List E)
      → length flags ≡ length es
      → count_dropped keys flags ≡ 0
      → survivors keys flags es ≡ es
  unfolding count_dropped survivors
  none_dropped [] [] h k = refl
  none_dropped [] (e ∷ es) h k = absurd (omega arith)
  none_dropped (f ∷ flags) [] h k = refl
  none_dropped (true ∷ flags) (e ∷ es) h k = absurd (omega arith)
  none_dropped (false ∷ flags) (e ∷ es) h k =
      ap (λ t. e ∷ t) (none_dropped flags es (omega arith) (omega arith))

  no_slots-IsTable :
      (endpoints : List E) (capacity : ℕ) → IsTable keys endpoints capacity (no_slots keys) []
  no_slots-IsTable endpoints capacity = record {
    sound = λ q slot h. cc h;
    complete = λ x h. absurd h;
  }

  keep_first_short :
      (endpoints : List E) → length endpoints < 2 → keep_first keys [] endpoints ≡ endpoints
  unfolding keep_first
  keep_first_short [] h = refl
  keep_first_short (e ∷ []) h = refl
  keep_first_short (e ∷ f ∷ es) h = absurd (omega arith)

  removed_by_lem :
      (endpoints : List E) (flags : List Bool)
      → length flags ≡ length endpoints
      → survivors keys flags endpoints ≡ keep_first keys [] endpoints
      → removed_by keys endpoints (some flags)
        ≡ some (keep_first keys [] endpoints, count_dropped keys flags)
  removed_by_lem endpoints flags lengths kept = elim (Bool-cases (count_dropped keys flags == 0)) [
    | inl none_removed ↦
        let zero_removed : count_dropped keys flags ≡ 0 = ground arith in
        let same = none_dropped flags endpoints lengths zero_removed in
        rw (none_removed, zero_removed) (ap (λ l. some (l, 0)) (sym same ∙ kept))
    | inr removed ↦ rw removed (ap (λ l. some (l, count_dropped keys flags)) kept)
  ]

  -- If equal entries have equal hashes, then on any list and after any calls before, the search in the
  -- table ends for each entry, of equal entries the first stays, the order is kept, and the number of
  -- removed entries is the difference of the lengths.
  pub deduplicate_lem :
      (retained : ℕ) (endpoints : List E)
      → RespectsHash keys
      → (removed : ℕ) × (deduplicate keys retained endpoints
          ≡ some (keep_first keys [] endpoints, removed))
        × (removed + length (keep_first keys [] endpoints) ≡ length endpoints)
  unfolding deduplicate
  deduplicate_lem retained endpoints respects =
      let capacity : ℕ = capacity_for retained (length endpoints) in
      elim (Bool-cases (ltb (length endpoints) 2)) [
        | inl short ↦
            let same = keep_first_short endpoints (ground arith) in
            (0, rw (short, same) refl, omega (arith, ap length same))
        | inr long ↦
            let large : length endpoints < capacity =
              ground (arith, capacity_for_lem retained (length endpoints)) in
            let (flags, marked, lengths, kept) =
              mark_lem keys endpoints capacity respects (no_slots keys) [] 0 endpoints
                (no_slots-IsTable endpoints capacity) (λ k. ap (get_elem? endpoints) (omega arith))
                (omega (arith, occupied-none capacity)) (omega arith) in
            let counted = count_dropped-survivors flags endpoints lengths in
            (
              count_dropped keys flags,
              rw (long, marked) (removed_by_lem endpoints flags lengths kept),
              ap (λ t. count_dropped keys flags + length t) (sym kept) ∙ counted,
            )
      ]
