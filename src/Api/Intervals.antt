-- ===== src/Api/Intervals.antt =====
-- find_value_intervals of AgentAPI.cpp.
pub mod Exact
use auto_waveform_debugger.Base.{
  ℕ, ◌-◌, ◌≡◌, Bool, true, false, Option, none, some, List, [], ◌∷◌, ◌++◌, Str, if◌then◌else◌, ltb,
  leb, ◌==◌, is_empty,
}
use auto_waveform_debugger.Wave.Signal.{Transition, SignalInfo}
use auto_waveform_debugger.Wave.Timeline.{from_upper}
use auto_waveform_debugger.Wave.Database.{
  M, ◌>>=◌, pure, get_signal_info, get_transitions, get_value_at_time,
}
use auto_waveform_debugger.Api.Query.{normalize_query_value_to_bits, value_matches_query}
use auto_waveform_debugger.Api.Reply.{
  Reply, success, error, start_after_end, unparsed_value, with_signal,
}

pub record Interval : Type 0 where
  pub start : ℕ
  pub end : ℕ

module _ (info : SignalInfo) (query_bits : Str) where
  unfoldable pub emit_interval_if_match : ℕ → ℕ → Str → List Interval → List Interval
  emit_interval_if_match seg_start seg_end raw_value later =
      if ltb seg_end seg_start
      then later
      else if value_matches_query info raw_value query_bits
      then record { start = seg_start; end = seg_end } ∷ later
      else later

  -- The loop from the iterator on, and the emission behind it. The intervals that are pushed later
  -- stand behind those that are pushed earlier.
  unfoldable pub intervals_from : ℕ → ℕ → Str → List Transition → List Interval
  intervals_from end_time interval_start current_value [] =
      emit_interval_if_match interval_start end_time current_value []
  intervals_from end_time interval_start current_value (x ∷ it) =
      let seg_end = if x.timestamp == 0 then 0 else x.timestamp - 1 in
      let rest = intervals_from end_time x.timestamp x.value it in
      if leb x.timestamp end_time
      then emit_interval_if_match interval_start seg_end current_value rest
      else emit_interval_if_match interval_start end_time current_value []

-- A query that is not parsed gives no bits; `none` where the parser ran out of fuel.
unfoldable pub find_value_intervals : Str → Str → ℕ → ℕ → Str → M (Reply (List Interval))
unfolding intervals_from emit_interval_if_match
find_value_intervals path value start_time end_time radix = with_signal path (
    if ltb end_time start_time then pure (error start_after_end) else (do
      info ← get_signal_info path
      query_bits ← (λ db. elim (normalize_query_value_to_bits value info.width radix) [
        | none ↦ none
        | some bits ↦ some (bits, db)
      ])
      if is_empty query_bits then pure (error unparsed_value) else (do
        trans ← get_transitions path
        current_value ← get_value_at_time path start_time
        pure (
            success (
              intervals_from info query_bits end_time start_time current_value
                (from_upper start_time trans))))))
