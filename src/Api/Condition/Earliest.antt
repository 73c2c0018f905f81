-- ===== src/Api/Condition/Earliest.antt =====
-- What a forward search of find_condition in AgentAPI.cpp returns.
use auto_waveform_debugger.Base.{
  ℕ, ◌+◌, ◌≤◌, ◌<◌, ◌≡◌, refl, ◌∙◌, true, false, ◌&&◌, Option, none, some, List, [], ◌∷◌, Str,
  arith, codes, str_eq, if◌then◌else◌, ltb, leb, Bool-cases, inl, inr,
}
use auto_waveform_debugger.Base.Scan.{words}
use auto_waveform_debugger.Wave.Signal.{Transition, SignalInfo}
use auto_waveform_debugger.Wave.Timeline.{from_lower, value_at, unknown, SortedFrom, IsSorted}
use auto_waveform_debugger.Wave.Timeline.Replay.{replay, replay_later, value_at-eq-replay}
use auto_waveform_debugger.Wave.Database.{
  WaveDatabase, pure, has_signal, get_transitions, get_value_at_time,
}
use auto_waveform_debugger.Wave.Database.Loading.{IsLoaded}
use auto_waveform_debugger.Api.Reply.{success, >>=-eq_some}
use auto_waveform_debugger.Api.Condition.{
  first_with_value, search_value, parse_condition, find_condition,
}

-- No two transitions at one time, in time order from `n` on.
abbrev pub StrictFrom : ℕ → List Transition → Type 0
StrictFrom n [] = Unit
StrictFrom n (x ∷ xs) = (n ≤ x.timestamp) × StrictFrom (x.timestamp + 1) xs

StrictFrom-SortedFrom : (n m : ℕ) (xs : List Transition) → m ≤ n → StrictFrom n xs → SortedFrom m xs
StrictFrom-SortedFrom n m [] h s = tt
StrictFrom-SortedFrom n m (x ∷ xs) h s =
    (omega arith, StrictFrom-SortedFrom (x.timestamp + 1) x.timestamp xs (omega arith) s.1)

StrictFrom-mono : (n m : ℕ) (xs : List Transition) → m ≤ n → StrictFrom n xs → StrictFrom m xs
StrictFrom-mono n m [] h s = tt
StrictFrom-mono n m (x ∷ xs) h s = (omega arith, s.1)

-- Against a time `u` from the start on: an answer holds there and `u` is not an earlier time that
-- holds; without an answer `u` does not hold.
abbrev IsAnswer : Str → (ℕ → Str) → ℕ → ℕ → Option ℕ → Type 0
IsAnswer val value start u none = str_eq (value u) val ≡ false
IsAnswer val value start u (some t) =
    (start ≤ t) × (str_eq (value t) val ≡ true) × ((ltb u t && str_eq (value u) val) ≡ false)

module _ (v : Str) (x : Transition) (it : List Transition) where
  -- Before the first transition, from it on, and at it.
  replay_before :
      (t : ℕ) → StrictFrom x.timestamp (x ∷ it) → t < x.timestamp → replay t v (x ∷ it) ≡ v
  replay_before t s h =
      replay_later t x.timestamp v (x ∷ it)
        (StrictFrom-SortedFrom x.timestamp x.timestamp (x ∷ it) (omega arith) s) h

  replay_from : (t : ℕ) → x.timestamp ≤ t → replay t v (x ∷ it) ≡ replay t x.value it
  unfolding replay
  replay_from t h = let past : leb x.timestamp t ≡ true = ground arith in rw past refl

  replay_at : StrictFrom (x.timestamp + 1) it → replay x.timestamp x.value it ≡ x.value
  replay_at s =
      replay_later x.timestamp (x.timestamp + 1) x.value it
        (StrictFrom-SortedFrom (x.timestamp + 1) (x.timestamp + 1) it (omega arith) s) (omega arith)

  -- The answer for the rest of the list is the answer for the whole.
  IsAnswer-later :
      (val : Str) (u start : ℕ) (r : Option ℕ)
      → start ≤ x.timestamp
      → x.timestamp ≤ u
      → IsAnswer val (λ t. replay t x.value it) x.timestamp u r
      → IsAnswer val (λ t. replay t v (x ∷ it)) start u r
  IsAnswer-later val u start none a b h = rw (replay_from u b) h
  IsAnswer-later val u start (some t) a b h =
      (omega (arith, h.0), rw (replay_from t h.0) h.1, rw (replay_from u b) h.2)

  -- A time before the first transition is no answer's.
  IsAnswer-before :
      (val : Str) (u start : ℕ) (r : Option ℕ)
      → StrictFrom x.timestamp (x ∷ it)
      → start ≤ x.timestamp
      → u < x.timestamp
      → str_eq v val ≡ false
      → IsAnswer val (λ t. replay t x.value it) x.timestamp x.timestamp r
      → IsAnswer val (λ t. replay t v (x ∷ it)) start u r
  IsAnswer-before val u start none s a b miss h = rw (replay_before u s b) miss
  IsAnswer-before val u start (some t) s a b miss h = (
    omega (arith, h.0),
    rw (replay_from t h.0) h.1,
    rw (replay_before u s b, miss) (ground arith),
  )

first_with_value-IsAnswer :
    (val : Str) (u start : ℕ) (v : Str) (it : List Transition)
    → start ≤ u
    → StrictFrom start it
    → str_eq (replay start v it) val ≡ false
    → IsAnswer val (λ t. replay t v it) start u (first_with_value val it)
unfolding first_with_value
first_with_value-IsAnswer val u start v [] h s miss = unfold replay in ground (arith, miss)
first_with_value-IsAnswer val u start v (x ∷ it) h s miss =
    let strict : StrictFrom x.timestamp (x ∷ it) = (omega arith, s.1) in
    let unheld : u < x.timestamp → str_eq v val ≡ false =
      λ before. ground (arith, miss, replay_before v x it start strict (omega arith)) in
    elim (Bool-cases (str_eq x.value val)) [
      | inl hit ↦ rw hit (
        omega arith,
        rw (replay_from v x it x.timestamp (omega arith), replay_at v x it s.1) hit,
        (elim (Bool-cases (ltb u x.timestamp)) [
          | inl before ↦
              rw (replay_before v x it u strict (ground arith), unheld (ground arith))
                (ground arith)
          | inr past ↦ rw past refl
        ]),
      )
      | inr other ↦
          let later : (w : ℕ)
              → x.timestamp ≤ w
              → IsAnswer val (λ t. replay t x.value it) x.timestamp w (first_with_value val it) =
            λ w b.
              first_with_value-IsAnswer val w x.timestamp x.value it b
                (StrictFrom-mono (x.timestamp + 1) x.timestamp it (omega arith) s.1)
                (rw (replay_at v x it s.1) other) in
          rw other (elim (Bool-cases (ltb u x.timestamp)) [
            | inl before ↦
                IsAnswer-before v x it val u start (first_with_value val it) strict (omega arith)
                  (ground arith) (unheld (ground arith)) (later x.timestamp (omega arith))
            | inr past ↦
                IsAnswer-later v x it val u start (first_with_value val it) (omega arith)
                  (ground arith) (later u (ground arith))
          ])
    ]

-- From the start on, only the value before it and the transitions behind it matter.
replay-from_lower :
    (start : ℕ) (v : Str) (xs : List Transition)
    → (w : Str) × ((t : ℕ) → start ≤ t → replay t v xs ≡ replay t w (from_lower start xs))
unfolding from_lower
replay-from_lower start v [] = (v, λ t h. refl)
replay-from_lower start v (x ∷ xs) = elim (Bool-cases (ltb x.timestamp start)) [
  | inl early ↦
      let (w, same) = replay-from_lower start x.value xs in
      (w, λ t h. rw early (replay_from v x xs t (ground arith) ∙ same t h))
  | inr late ↦ (v, λ t h. rw late refl)
]

from_lower-StrictFrom :
    (start n : ℕ) (xs : List Transition) → StrictFrom n xs → StrictFrom start (from_lower start xs)
unfolding from_lower
from_lower-StrictFrom start n [] s = tt
from_lower-StrictFrom start n (x ∷ xs) s = elim (Bool-cases (ltb x.timestamp start)) [
  | inl early ↦ rw early (from_lower-StrictFrom start (x.timestamp + 1) xs s.1)
  | inr late ↦ rw late (ground arith, s.1)
]

-- The same against the values of the signal.
abbrev pub IsEarliest : Str → List Transition → ℕ → ℕ → Option ℕ → Type 0
IsEarliest val trans start = IsAnswer val (value_at trans) start

answer_in :
    (val : Str) (u start : ℕ) (trans : List Transition) (r : Option ℕ) (w : Str)
    → IsSorted trans
    → start ≤ u
    → ((t : ℕ) → start ≤ t → replay t unknown trans ≡ replay t w (from_lower start trans))
    → IsAnswer val (λ t. replay t w (from_lower start trans)) start u r
    → IsEarliest val trans start u r
answer_in val u start trans none w s h same a = rw (value_at-eq-replay trans u s, same u h) a
answer_in val u start trans (some t) w s h same a = (
  a.0,
  rw (value_at-eq-replay trans t s, same t a.0) a.1,
  rw (value_at-eq-replay trans u s, same u h) a.2,
)

-- The search from the iterator on, if the value is not there at the start.
search-IsEarliest :
    (val : Str) (u start : ℕ) (trans : List Transition)
    → StrictFrom 0 trans
    → start ≤ u
    → str_eq (value_at trans start) val ≡ false
    → IsEarliest val trans start u (first_with_value val (from_lower start trans))
search-IsEarliest val u start trans strict h miss =
    let sorted : IsSorted trans = StrictFrom-SortedFrom 0 0 trans (omega arith) strict in
    let (w, same) = replay-from_lower start unknown trans in
    answer_in val u start trans _ w sorted h same (
      first_with_value-IsAnswer val u start w (from_lower start trans) h
        (from_lower-StrictFrom start 0 trans strict)
        (let moved : value_at trans start ≡ replay start w (from_lower start trans) =
            value_at-eq-replay trans start sorted ∙ same start (omega arith) in
          rw (← moved) miss))

search_forward :
    (path val : Str) (start_time : ℕ) (db : WaveDatabase) (info : SignalInfo)
    (trans : List Transition)
    → IsLoaded db path info trans
    → search_value path val start_time (codes "forward") db
      ≡ (if str_eq (value_at trans start_time) val
            then pure (success (some start_time))
            else pure (success (first_with_value val (from_lower start_time trans))))
          db
unfolding search_value
search_forward path val start_time db info trans loaded =
    >>=-eq_some (get_transitions path) _ db trans loaded.read
    ∙ >>=-eq_some (get_value_at_time path start_time) _ db _ (loaded.sampled start_time)

-- For a condition on a signal whose transitions are loaded and have strictly rising times, a forward
-- search succeeds and changes nothing. The time that it returns is not before the start, the signal
-- has the value there, and a time from the start on that is earlier does not have it; if it returns
-- none, no time from the start on has the value.
pub find_condition-IsEarliest :
    (expression path val : Str) (start_time u : ℕ) (db : WaveDatabase) (info : SignalInfo)
    (trans : List Transition)
    → parse_condition (words expression) ≡ some (path, val)
    → IsLoaded db path info trans
    → StrictFrom 0 trans
    → start_time ≤ u
    → (r : Option ℕ) × (find_condition expression start_time (codes "forward") db
        ≡ some (success r, db))
      × IsEarliest val trans start_time u r
unfolding find_condition
find_condition-IsEarliest expression path val start_time u db info trans parsed loaded strict h =
    let found =
      >>=-eq_some (has_signal path) _ db true loaded.known
      ∙ search_forward path val start_time db info trans loaded in
    elim (Bool-cases (str_eq (value_at trans start_time) val)) [
      | inl now ↦ (
        some start_time,
        rw (find_condition, parsed) (found ∙ rw now refl),
        (omega arith, now, ground arith),
      )
      | inr later ↦ (
        first_with_value val (from_lower start_time trans),
        rw (find_condition, parsed) (found ∙ rw later refl),
        search-IsEarliest val u start_time trans strict h later,
      )
    ]
