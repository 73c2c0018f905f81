-- ===== src/Api/History/Window.antt =====
-- What get_transitions of AgentAPI.cpp returns of a window.
use auto_waveform_debugger.Base.{
  ℕ, zero, suc, ◌≤◌, ◌<◌, ◌≡◌, refl, ap, ◌∙◌, true, false, ◌&&◌, some, List, [], ◌∷◌, Str, arith,
  ltb, leb, if◌then◌else◌, Bool-cases, inl, inr, take, length,
}
use auto_waveform_debugger.Wave.Signal.{Transition, SignalInfo}
use auto_waveform_debugger.Wave.Timeline.{from_lower, SortedFrom, IsSorted}
use auto_waveform_debugger.Wave.Database.{WaveDatabase, get_transitions}
use auto_waveform_debugger.Wave.Database.Loading.{IsLoaded}
use auto_waveform_debugger.Api.Reply.{success, >>=-eq_some, with_signal_known}
use auto_waveform_debugger.Api.History.{history_loop, get_history}

-- The transitions at a time of the window.
unfoldable pub inside : ℕ → ℕ → List Transition → List Transition
inside start_time end_time [] = []
inside start_time end_time (x ∷ xs) =
    let rest = inside start_time end_time xs in
    if leb start_time x.timestamp && leb x.timestamp end_time then x ∷ rest else rest

inside-past :
    (start_time end_time n : ℕ) (xs : List Transition)
    → SortedFrom n xs
    → end_time < n
    → inside start_time end_time xs ≡ []
unfolding inside
inside-past start_time end_time n [] s h = refl
inside-past start_time end_time n (x ∷ xs) s h =
    ground (arith, inside-past start_time end_time x.timestamp xs s.1 (omega arith))

-- The loop takes the first transitions of the window, and says whether others are left.
history_loop-eq :
    (start_time end_time room n : ℕ) (it : List Transition)
    → SortedFrom n it
    → start_time ≤ n
    → ((history_loop end_time room it).0 ≡ take room (inside start_time end_time it))
      × ((history_loop end_time room it).1 ≡ ltb room (length (inside start_time end_time it)))
unfolding history_loop inside
history_loop-eq start_time end_time zero n [] s h = (refl, refl)
history_loop-eq start_time end_time (suc room) n [] s h = (refl, ground arith)
history_loop-eq start_time end_time zero n (x ∷ it) s h =
    elim (Bool-cases (leb x.timestamp end_time)) [
      | inl here ↦
          let reached : leb start_time x.timestamp ≡ true = ground arith in
          rw (here, reached) (refl, ground arith)
      | inr past ↦
          let nothing = inside-past start_time end_time x.timestamp it s.1 (ground arith) in
          rw past (refl, ground (arith, nothing))
    ]
history_loop-eq start_time end_time (suc room) n (x ∷ it) s h =
    elim (Bool-cases (leb x.timestamp end_time)) [
      | inl here ↦
          let reached : leb start_time x.timestamp ≡ true = ground arith in
          let rest = history_loop-eq start_time end_time room x.timestamp it s.1 (omega arith) in
          rw (here, reached) (ap (λ l. x ∷ l) rest.0, rest.1 ∙ ground arith)
      | inr past ↦
          let nothing = inside-past start_time end_time x.timestamp it s.1 (ground arith) in
          rw past (ground (arith, nothing), ground (arith, nothing))
    ]

inside-from_lower :
    (start_time end_time : ℕ) (xs : List Transition)
    → inside start_time end_time (from_lower start_time xs) ≡ inside start_time end_time xs
unfolding from_lower inside
inside-from_lower start_time end_time [] = refl
inside-from_lower start_time end_time (x ∷ xs) =
    ground (arith, inside-from_lower start_time end_time xs)

pub from_lower-SortedFrom :
    (start n : ℕ) (xs : List Transition) → SortedFrom n xs → SortedFrom start (from_lower start xs)
unfolding from_lower
from_lower-SortedFrom start n [] s = tt
from_lower-SortedFrom start n (x ∷ xs) s = elim (Bool-cases (ltb x.timestamp start)) [
  | inl early ↦ rw early (from_lower-SortedFrom start x.timestamp xs s.1)
  | inr late ↦ rw late (ground arith, s.1)
]

-- For a signal whose transitions are loaded and in time order, the reply holds the first transitions
-- of the window up to the limit, and is truncated exactly if the window has more; nothing is changed.
pub get_history_lem :
    (path : Str) (start_time end_time max_limit : ℕ) (db : WaveDatabase) (info : SignalInfo)
    (trans : List Transition)
    → IsLoaded db path info trans
    → IsSorted trans
    → start_time ≤ end_time
    → let found = inside start_time end_time trans in
      get_history path start_time end_time max_limit db
      ≡ some (
        success
            (record { history = take max_limit found; truncated = ltb max_limit (length found) }),
        db,
      )
unfolding get_history
get_history_lem path start_time end_time max_limit db info trans loaded sorted h =
    let ordered : ltb end_time start_time ≡ false = ground arith in
    let looped =
      history_loop-eq start_time end_time max_limit start_time (from_lower start_time trans)
        (from_lower-SortedFrom start_time 0 trans sorted) (omega arith) in
    with_signal_known path _ db loaded.known
    ∙ rw ordered (
        >>=-eq_some (get_transitions path) _ db trans loaded.read
        ∙ rw (looped.0, looped.1, inside-from_lower start_time end_time trans) refl)
