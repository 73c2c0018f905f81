-- ===== src/Trace/Dedup.antt =====
-- The removal of equal endpoints: DeduplicateEndpointsInPlace of db/EndpointDedup.h, for any type of
-- entries with a comparison and a hash. The slots are a function of the position; the table is
-- empty when a call begins, as ClearTouched leaves it. Its capacity is a power of two, so that
-- `hash & mask` is the remainder by it.
pub mod Probing
pub mod Table
pub mod KeepsFirst
use auto_waveform_debugger.Base.{
  ℕ, zero, suc, ◌+◌, ◌*◌, ◌/◌, ◌%◌, Bool, true, false, not, ◌&&◌, ◌||◌, Option, none, some, List,
  [], ◌∷◌, if◌then◌else◌, ltb, ◌==◌, length, get_elem?,
}

pub record Slot : Type 0 where
  pub index : ℕ
  pub hash : ℕ

abbrev pub Slots : Type 0
Slots = ℕ → Option Slot

abbrev pub next_position : ℕ → ℕ → ℕ
next_position capacity position = (position + 1) % capacity

-- while (capacity / 2 < size) capacity *= 2, on fuel; std::length_error is left out.
unfoldable pub grow : ℕ → ℕ → ℕ → ℕ
grow zero size capacity = capacity
grow (suc fuel) size capacity =
    let more = grow fuel size (capacity * 2) in if ltb (capacity / 2) size then more else capacity

-- The capacity for a call, from that of the table which the calls before have left.
unfoldable pub capacity_for : ℕ → ℕ → ℕ
unfolding grow
capacity_for retained size = if ltb (retained / 2) size then grow size size 8 else retained

-- What a search in the table ends with: an equal entry, the empty slot, or no fuel.
pub data Probe : Type 0 where
  duplicate : Probe
  vacant : ℕ → Probe
  exhausted : Probe

-- SameEndpointFields and the hash of a full key.
pub record Keys (E : Type 0) : Type 0 where
  pub same : E → E → Bool
  pub hash : E → ℕ

module _ {E : Type 0} (keys : Keys E) where
  abbrev pub same_at : List E → ℕ → E → Bool
  same_at endpoints i e = elim (get_elem? endpoints i) [ none ↦ false | some x ↦ keys.same x e ]

  abbrev pub matches : List E → Slot → E → Bool
  matches endpoints slot e = slot.hash == keys.hash e && same_at endpoints slot.index e

  unfoldable pub probe : List E → Slots → ℕ → ℕ → ℕ → E → Probe
  probe endpoints slots capacity zero position e = exhausted
  probe endpoints slots capacity (suc fuel) position e =
      let rest = probe endpoints slots capacity fuel (next_position capacity position) e in
      elim (slots position) [
        | none ↦ vacant position
        | some slot ↦ if matches endpoints slot e then duplicate else rest
      ]

  abbrev pub fill : Slots → ℕ → Slot → Slots
  fill slots position slot q = if q == position then some slot else slots q

  abbrev pub slots_after : Slots → ℕ → E → Probe → Slots
  slots_after slots i e duplicate = slots
  slots_after slots i e (vacant position) =
      fill slots position (record { index = i; hash = keys.hash e })
  slots_after slots i e exhausted = slots

  -- Whether an entry is dropped, in front of the flags of those behind it.
  abbrev pub add_flag : Probe → Option (List Bool) → Option (List Bool)
  add_flag result none = none
  add_flag duplicate (some flags) = some (true ∷ flags)
  add_flag (vacant position) (some flags) = some (false ∷ flags)
  add_flag exhausted (some flags) = none

  -- The loop over the entries: whether each is dropped; none where a search does not end.
  unfoldable pub mark : List E → ℕ → Slots → ℕ → List E → Option (List Bool)
  unfolding probe
  mark endpoints capacity slots i [] = some []
  mark endpoints capacity slots i (e ∷ es) =
      let result = probe endpoints slots capacity capacity (keys.hash e % capacity) e in
      add_flag result (mark endpoints capacity (slots_after slots i e result) (i + 1) es)

  -- The survivors move to the front.
  unfoldable pub survivors : List Bool → List E → List E
  survivors (flag ∷ flags) (e ∷ es) =
      let rest = survivors flags es in if flag then rest else e ∷ rest
  survivors flags es = []

  unfoldable pub count_dropped : List Bool → ℕ
  count_dropped [] = 0
  count_dropped (flag ∷ flags) = (if flag then 1 else 0) + count_dropped flags

  abbrev pub no_slots : Slots
  no_slots position = none

  -- What the flags make of the list, and how many entries are removed.
  abbrev pub removed_by : List E → Option (List Bool) → Option (List E × ℕ)
  removed_by endpoints none = none
  removed_by endpoints (some flags) =
      if count_dropped flags == 0
      then some (endpoints, 0)
      else some (survivors flags endpoints, count_dropped flags)

  -- The list afterwards, and how many entries were removed; none where a search does not end.
  unfoldable pub deduplicate : ℕ → List E → Option (List E × ℕ)
  unfolding capacity_for mark survivors count_dropped
  deduplicate retained endpoints =
      if ltb (length endpoints) 2
      then some (endpoints, 0)
      else removed_by endpoints
          (mark endpoints (capacity_for retained (length endpoints)) no_slots 0 endpoints)
