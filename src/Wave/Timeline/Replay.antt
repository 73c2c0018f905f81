-- ===== src/Wave/Timeline/Replay.antt =====
-- The value at a time against a replay of all transitions, and how the bounds split a list.
use auto_waveform_debugger.Base.{
  ℕ, ◌+◌, ◌<◌, ◌≡◌, refl, List, [], ◌∷◌, ◌++◌, Str, arith, ltb, leb, if◌then◌else◌, last?,
  Bool-cases, inl, inr,
}
use auto_waveform_debugger.Wave.Signal.{Transition}
use auto_waveform_debugger.Wave.Timeline.{
  until_lower, from_lower, until_upper, from_upper, unknown, value_or_unknown, value_at, SortedFrom,
  IsSorted,
}

-- Every transition up to time `t` is applied in turn.
unfoldable pub replay : ℕ → Str → List Transition → Str
replay t v [] = v
replay t v (x ∷ xs) = replay t (if leb x.timestamp t then x.value else v) xs

pub until-from-lower : (t : ℕ) (xs : List Transition) → until_lower t xs ++ from_lower t xs ≡ xs
unfolding until_lower from_lower
until-from-lower t [] = refl
until-from-lower t (x ∷ xs) = ground (arith, until-from-lower t xs)

pub until-from-upper : (t : ℕ) (xs : List Transition) → until_upper t xs ++ from_upper t xs ≡ xs
unfolding until_upper from_upper
until-from-upper t [] = refl
until-from-upper t (x ∷ xs) = ground (arith, until-from-upper t xs)

pub replay_later :
    (t n : ℕ) (v : Str) (xs : List Transition) → SortedFrom n xs → t < n → replay t v xs ≡ v
unfolding replay
replay_later t n v [] s h = refl
replay_later t n v (x ∷ xs) s h = ground (arith, replay_later t x.timestamp v xs s.1 (omega arith))

abbrev last_value : Str → List Transition → Str
last_value v [] = v
last_value v (x ∷ xs) = last_value x.value xs

last_value_lem :
    (x : Transition) (xs : List Transition)
    → value_or_unknown (last? (x ∷ xs)) ≡ last_value x.value xs
last_value_lem x [] = refl
last_value_lem x (y ∷ ys) = last_value_lem y ys

replay-eq-last_value :
    (t n : ℕ) (v : Str) (xs : List Transition)
    → SortedFrom n xs
    → replay t v xs ≡ last_value v (until_upper t xs)
unfolding replay until_upper
replay-eq-last_value t n v [] s = refl
replay-eq-last_value t n v (x ∷ xs) s =
    ground (
      arith,
      replay-eq-last_value t x.timestamp x.value xs s.1,
      replay_later t x.timestamp v xs s.1,
    )

-- The transitions behind a time come later than it.
pub from_upper-SortedFrom :
    (n t : ℕ) (xs : List Transition) → SortedFrom n xs → SortedFrom (t + 1) (from_upper t xs)
unfolding from_upper
from_upper-SortedFrom n t [] s = tt
from_upper-SortedFrom n t (x ∷ xs) s = elim (Bool-cases (leb x.timestamp t)) [
  | inl e ↦ rw e (from_upper-SortedFrom x.timestamp t xs s.1)
  | inr e ↦ rw e (ground arith, s.1)
]

-- On transitions in time order, the value at a time is what a replay of all of them up to that
-- time leaves, starting from the unknown value.
pub value_at-eq-replay :
    (xs : List Transition) (t : ℕ) → IsSorted xs → value_at xs t ≡ replay t unknown xs
unfolding value_at
value_at-eq-replay [] t s = unfold replay in refl
value_at-eq-replay (x ∷ xs) t s = elim (Bool-cases (ltb t x.timestamp)) [
  | inl early ↦ ground (arith, replay_later t x.timestamp unknown (x ∷ xs))
  | inr reached ↦
      unfold replay until_upper in
      ground (
        arith,
        replay-eq-last_value t x.timestamp x.value xs s.1,
        last_value_lem x (until_upper t xs),
      )
]
