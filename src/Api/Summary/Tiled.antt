-- ===== src/Api/Summary/Tiled.antt =====
-- The reply of get_signal_overview of AgentAPI.cpp.
use auto_waveform_debugger.Base.{
  ℕ, ◌+◌, ◌≤◌, ◌<◌, ◌≡◌, refl, ◌∙◌, false, some, List, [], ◌∷◌, Str, arith, length, ltb, leb,
  Bool-cases, inl, inr, max_u64,
}
use auto_waveform_debugger.Wave.Signal.{Transition, SignalInfo}
use auto_waveform_debugger.Wave.Timeline.{value_at, SortedFrom, IsSorted, from_upper}
use auto_waveform_debugger.Wave.Timeline.Replay.{from_upper-SortedFrom}
use auto_waveform_debugger.Wave.Database.{
  WaveDatabase, get_signal_info, get_transitions, get_value_at_time,
}
use auto_waveform_debugger.Wave.Database.Loading.{IsLoaded}
use auto_waveform_debugger.Api.Overview.{
  OverviewSegment, until_end, get_window_transitions, build_signal_overview_segments,
  target_segments,
}
use auto_waveform_debugger.Api.Overview.Tiling.{Within, Covers, build-Covers}
use auto_waveform_debugger.Api.Overview.Auto.{auto_overview_short}
use auto_waveform_debugger.Api.Reply.{success, >>=-eq_some, with_signal_known}
use auto_waveform_debugger.Api.Arguments.{
  Argument, null, other, number, text, Resolution, auto, every, parse_overview_resolution,
}
use auto_waveform_debugger.Api.Summary.{
  SignalOverview, summary, overview_segments_to_json, resolved, overview_of, get_signal_overview,
}

until_end-Within :
    (n m e : ℕ) (xs : List Transition) → n ≤ m → SortedFrom m xs → Within n e (until_end e xs)
unfolding until_end
until_end-Within n m e [] h s = tt
until_end-Within n m e (x ∷ xs) h s = elim (Bool-cases (leb x.timestamp e)) [
  | inl inside ↦
      rw inside
        (omega arith, ground arith, until_end-Within x.timestamp x.timestamp e xs (omega arith) s.1)
  | inr past ↦ rw past tt
]

window-Within :
    (start_time end_time : ℕ) (trans : List Transition)
    → IsSorted trans
    → Within start_time end_time (get_window_transitions trans start_time end_time)
unfolding get_window_transitions
window-Within start_time end_time trans sorted =
    until_end-Within start_time (start_time + 1) end_time (from_upper start_time trans)
      (omega arith) (from_upper-SortedFrom 0 start_time trans sorted)

-- A resolution that is parsed is not zero.
parsed_positive :
    (argument : Argument) (n : ℕ) → parse_overview_resolution argument ≡ success (every n) → 1 ≤ n
unfolding parse_overview_resolution
parsed_positive null n e = absurd cc
parsed_positive other n e = absurd cc
parsed_positive (number value) n e = ground arith
parsed_positive (text raw) n e = ground arith

-- Segments for a resolution: twenty at most if it is automatic.
abbrev pub IsShort : Resolution → List OverviewSegment → Type 0
IsShort auto segments = length segments ≤ target_segments
IsShort (every n) segments = Unit

module _ (path radix : Str) (start_time end_time : ℕ) (argument : Argument) (db : WaveDatabase)
    (info : SignalInfo) (trans : List Transition) (loaded : IsLoaded db path info trans) where
  -- What the handler computes for the window.
  Answers : List Transition → Str → Resolution → Type 0
  Answers window start_value resolution =
      (step : ℕ) × (segments : List OverviewSegment) × (resolved window start_time end_time
          resolution
        ≡ some step)
      × (build_signal_overview_segments info radix window start_time end_time step start_value
          ≡ some segments)
      × Covers start_time (end_time + 1) segments
      × IsShort resolution segments

  answers :
      (window : List Transition) (start_value : Str) (resolution : Resolution)
      → start_time ≤ end_time
      → end_time < max_u64
      → parse_overview_resolution argument ≡ success resolution
      → Within start_time end_time window
      → Answers window start_value resolution
  unfolding Answers
  answers window start_value (every n) h small parsed w =
      let (segments, built, covers) =
        build-Covers info radix window start_time end_time n start_value
          (parsed_positive argument n parsed) h small w in
      (n, segments, refl, built, covers, tt)
  answers window start_value auto h small parsed w =
      let (step, segments, chosen, low, high, built, short) =
        auto_overview_short info radix window start_time end_time start_value h small w in
      let (same_segments, again, covers) =
        build-Covers info radix window start_time end_time step start_value low h small w in
      let same : same_segments ≡ segments = cc (built, again) in
      (step, segments, chosen, built, rw same at covers, short)

  -- For a signal whose transitions are loaded and in time order, a window that ends below the last
  -- 64-bit time, and a resolution that is parsed, the handler succeeds and changes nothing, and the
  -- segments of its reply cover the window from its start up to and with its end, each beginning
  -- where the one before it ended; for an automatic resolution they are twenty at most.
  pub get_signal_overview_tiled :
      (resolution : Resolution)
      → IsSorted trans
      → start_time ≤ end_time
      → end_time < max_u64
      → parse_overview_resolution argument ≡ success resolution
      → (reply : SignalOverview) × (segments : List OverviewSegment) × (get_signal_overview path
            start_time end_time argument radix db
          ≡ some (success reply, db))
        × (reply.segments ≡ overview_segments_to_json segments)
        × Covers start_time (end_time + 1) segments
        × IsShort resolution segments
  unfolding get_signal_overview overview_of Answers
  get_signal_overview_tiled resolution sorted h small parsed =
      let window = get_window_transitions trans start_time end_time in
      let ordered : ltb end_time start_time ≡ false = ground arith in
      let (step, segments, chosen, built, covers, short) =
        answers window (value_at trans start_time) resolution h small parsed
          (window-Within start_time end_time trans sorted) in
      (
        summary argument resolution step db.timescale info radix segments,
        segments,
        with_signal_known path _ db loaded.known
            ∙ rw (ordered, parsed)
                (>>=-eq_some (get_signal_info path) _ db info loaded.described
                  ∙ >>=-eq_some (get_transitions path) _ db trans loaded.read
                  ∙ >>=-eq_some (get_value_at_time path start_time) _ db _
                      (loaded.sampled start_time)
                  ∙ rw (chosen, built) refl),
        refl,
        covers,
        short,
      )
