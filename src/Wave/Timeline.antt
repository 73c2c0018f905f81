-- ===== src/Wave/Timeline.antt =====
-- A signal's transitions as a range of a std::vector. `lower_bound` and `upper_bound` of the
-- standard library return the partition point of a partitioned range: the first element not below
-- the time, or above it. An iterator is the pair of the elements before it and from it on.
pub mod Replay
use auto_waveform_debugger.Base.{
  ℕ, ◌≤◌, ◌≡◌, Bool, true, false, Option, none, some, List, [], ◌∷◌, Str, codes, ltb, leb,
  if◌then◌else◌, last?,
}
use auto_waveform_debugger.Wave.Signal.{Transition}

-- [begin, lower_bound(t)) and [lower_bound(t), end)
unfoldable pub until_lower : ℕ → List Transition → List Transition
until_lower t [] = []
until_lower t (x ∷ xs) = if ltb x.timestamp t then x ∷ until_lower t xs else []

unfoldable pub from_lower : ℕ → List Transition → List Transition
from_lower t [] = []
from_lower t (x ∷ xs) = if ltb x.timestamp t then from_lower t xs else x ∷ xs

-- [begin, upper_bound(t)) and [upper_bound(t), end)
unfoldable pub until_upper : ℕ → List Transition → List Transition
until_upper t [] = []
until_upper t (x ∷ xs) = if leb x.timestamp t then x ∷ until_upper t xs else []

unfoldable pub from_upper : ℕ → List Transition → List Transition
from_upper t [] = []
from_upper t (x ∷ xs) = if leb x.timestamp t then from_upper t xs else x ∷ xs

-- The value where there is no transition yet.
abbrev pub unknown : Str
unknown = codes "U"

abbrev pub value_or_unknown : Option Transition → Str
value_or_unknown none = unknown
value_or_unknown (some tr) = tr.value

-- The part of `get_value_at_time` that reads the transitions.
unfoldable pub value_at : List Transition → ℕ → Str
unfolding until_upper
value_at [] time = unknown
value_at (front ∷ rest) time =
    if ltb time front.timestamp
    then unknown
    else value_or_unknown (last? (until_upper time (front ∷ rest)))

-- Times do not fall along the list, and start at `n` or later.
abbrev pub SortedFrom : ℕ → List Transition → Type 0
SortedFrom n [] = Unit
SortedFrom n (x ∷ xs) = (n ≤ x.timestamp) × SortedFrom x.timestamp xs

abbrev pub IsSorted : List Transition → Type 0
IsSorted = SortedFrom 0
