-- ===== src/Api/Intervals/Exact.antt =====
-- The intervals of find_value_intervals against the value at each time.
use auto_waveform_debugger.Base.{
  ℕ, ◌+◌, ◌-◌, ◌≤◌, ◌<◌, ◌≡◌, refl, sym, ap, ◌∙◌, Bool, true, false, ◌&&◌, ◌||◌, some, List, [],
  ◌∷◌, Str, arith, if◌then◌else◌, ltb, leb, ◌==◌, is_empty, Bool-cases, inl, inr,
}
use auto_waveform_debugger.Wave.Signal.{Transition, SignalInfo}
use auto_waveform_debugger.Wave.Timeline.{from_upper, value_at, unknown, SortedFrom, IsSorted}
use auto_waveform_debugger.Wave.Timeline.Replay.{
  from_upper-SortedFrom, replay, replay_later, value_at-eq-replay,
}
use auto_waveform_debugger.Wave.Database.{
  WaveDatabase, get_signal_info, get_transitions, get_value_at_time,
}
use auto_waveform_debugger.Wave.Database.Loading.{IsLoaded}
use auto_waveform_debugger.Api.Query.{normalize_query_value_to_bits, value_matches_query}
use auto_waveform_debugger.Api.Reply.{success, with_signal_known, >>=-eq_some}
use auto_waveform_debugger.Api.Intervals.{
  Interval, emit_interval_if_match, intervals_from, find_value_intervals,
}

-- A time lies in one of the intervals.
abbrev pub covered : ℕ → List Interval → Bool
covered t [] = false
covered t (i ∷ is) = (leb i.start t && leb t i.end) || covered t is

module _ (info : SignalInfo) (bits : Str) where
  covered-emit :
      (t start end : ℕ) (v : Str) (later : List Interval)
      → covered t (emit_interval_if_match info bits start end v later)
        ≡ ((leb start t && leb t end && value_matches_query info v bits) || covered t later)
  unfolding emit_interval_if_match
  covered-emit t start end v later = ground arith

  seg_end : ℕ → ℕ
  seg_end time = if time == 0 then 0 else time - 1

  -- No interval begins before the cursor.
  covered-early :
      (t end_time cursor : ℕ) (v : Str) (xs : List Transition)
      → t < cursor
      → SortedFrom cursor xs
      → covered t (intervals_from info bits end_time cursor v xs) ≡ false
  unfolding intervals_from
  covered-early t end_time cursor v [] early s = rw covered-emit (ground arith)
  covered-early t end_time cursor v (x ∷ xs) early s =
      elim (Bool-cases (leb x.timestamp end_time)) [
        | inl inside ↦
            rw
              (
                inside,
                covered-emit,
                covered-early t end_time x.timestamp x.value xs (omega arith) s.1,
              )
              (ground arith)
        | inr outside ↦ rw (outside, covered-emit) (ground arith)
      ]

  -- From the cursor on a time is covered exactly where its value matches, if all changes come
  -- after time 0.
  covered-intervals_from :
      (t end_time cursor n : ℕ) (v : Str) (xs : List Transition)
      → cursor ≤ t
      → t ≤ end_time
      → cursor ≤ n
      → 1 ≤ n
      → SortedFrom n xs
      → covered t (intervals_from info bits end_time cursor v xs)
        ≡ value_matches_query info (replay t v xs) bits
  unfolding intervals_from replay
  covered-intervals_from t end_time cursor n v [] h k c p s = rw covered-emit (ground arith)
  covered-intervals_from t end_time cursor n v (x ∷ xs) h k c p s =
      let before : (if x.timestamp == 0 then 0 else x.timestamp - 1) ≡ x.timestamp - 1 =
        ground arith in
      elim (Bool-cases (leb x.timestamp t)) [
        | inl reached ↦
            let inside : leb x.timestamp end_time ≡ true = ground arith in
            let off : leb t (x.timestamp - 1) ≡ false = ground arith in
            rw
              (
                inside,
                reached,
                covered-emit,
                covered-intervals_from t end_time x.timestamp x.timestamp x.value xs (ground arith)
                    k (omega arith) (omega arith) s.1,
                before,
                off,
              )
              (ground arith)
        | inr later ↦ elim (Bool-cases (leb x.timestamp end_time)) [
          | inl inside ↦
              rw
                (
                  inside,
                  later,
                  covered-emit,
                  covered-early t end_time x.timestamp x.value xs (ground arith) s.1,
                  replay_later t x.timestamp v xs s.1 (ground arith),
                )
                (ground arith)
          | inr outside ↦
              rw (outside, later, covered-emit, replay_later t x.timestamp v xs s.1 (ground arith))
                (ground arith)
        ]
      ]

-- The value that the transitions up to a time leave, before those behind it.
replay-from_upper :
    (start t : ℕ) (v : Str) (xs : List Transition) (n : ℕ)
    → start ≤ t
    → SortedFrom n xs
    → replay t (replay start v xs) (from_upper start xs) ≡ replay t v xs
unfolding from_upper replay
replay-from_upper start t v [] n h s = refl
replay-from_upper start t v (x ∷ xs) n h s = elim (Bool-cases (leb x.timestamp start)) [
  | inl e ↦
      let f : leb x.timestamp t ≡ true = ground arith in
      rw (e, f) (replay-from_upper start t x.value xs x.timestamp h s.1)
  | inr e ↦ rw (e, replay_later start x.timestamp v xs s.1 (ground arith)) refl
]

-- For a signal whose transitions are loaded and in time order, and a query that is parsed to bits,
-- the query succeeds and changes nothing, and a time of the window lies in one of its intervals
-- exactly if the signal's value at that time matches the query.
pub find_value_intervals_exact :
    (path value radix : Str) (start_time end_time : ℕ) (db : WaveDatabase) (info : SignalInfo)
    (trans : List Transition) (bits : Str) (t : ℕ)
    → IsLoaded db path info trans
    → IsSorted trans
    → start_time ≤ t
    → t ≤ end_time
    → normalize_query_value_to_bits value info.width radix ≡ some bits
    → is_empty bits ≡ false
    → (intervals : List Interval) × (find_value_intervals path value start_time end_time radix db
        ≡ some (success intervals, db))
      × (covered t intervals ≡ value_matches_query info (value_at trans t) bits)
unfolding find_value_intervals
find_value_intervals_exact path value radix start_time end_time db info trans bits t loaded sorted a
      b parsed full =
    let ordered : ltb end_time start_time ≡ false = ground arith in
    (
      intervals_from info bits end_time start_time (value_at trans start_time)
          (from_upper start_time trans),
      with_signal_known path _ db loaded.known
          ∙ rw ordered (
              >>=-eq_some (get_signal_info path) _ db info loaded.described
              ∙ rw (parsed, full)
                  (>>=-eq_some (get_transitions path) _ db trans loaded.read
                    ∙ >>=-eq_some (get_value_at_time path start_time) _ db _
                        (loaded.sampled start_time))),
      covered-intervals_from info bits t end_time start_time (start_time + 1) _ _ a b (omega arith)
            (omega arith) (from_upper-SortedFrom 0 start_time trans sorted)
          ∙ ap (λ v. value_matches_query info v bits)
              (ap (λ w. replay t w (from_upper start_time trans))
                  (value_at-eq-replay trans start_time sorted)
                ∙ replay-from_upper start_time t unknown trans 0 a sorted
                ∙ sym (value_at-eq-replay trans t sorted)),
    )
