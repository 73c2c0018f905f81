-- ===== src/Api/Summary.antt =====
-- get_signal_overview of AgentAPI.cpp.
pub mod Tiled
use auto_waveform_debugger.Base.{
  ℕ, Option, none, some, List, [], ◌∷◌, Str, codes, ltb, leb, if◌then◌else◌, is_empty,
}
use auto_waveform_debugger.Wave.Signal.{Transition, SignalInfo}
use auto_waveform_debugger.Wave.Database.{
  M, ◌>>=◌, pure, gets, get_signal_info, get_transitions, get_value_at_time,
}
use auto_waveform_debugger.Api.Values.{Radix, normalize_radix}
use auto_waveform_debugger.Api.Overview.{
  OverviewSegment, get_window_transitions, build_signal_overview_segments, choose_auto_resolution,
}
use auto_waveform_debugger.Api.Reply.{Reply, success, error, start_after_end, with_signal, returned}
use auto_waveform_debugger.Api.Arguments.{
  Argument, text, Resolution, auto, every, parse_overview_resolution,
}

-- A segment in the reply: a member that is left out is `none`.
pub record SegmentItem : Type 0 where
  pub start : ℕ
  pub end : ℕ
  pub state : Str
  pub value : Option Str
  pub transitions : Option ℕ
  pub unique_values : Option ℕ

abbrev above_zero : ℕ → Option ℕ
above_zero n = if ltb 0 n then some n else none

unfoldable pub overview_segments_to_json : List OverviewSegment → List SegmentItem
overview_segments_to_json [] = []
overview_segments_to_json (segment ∷ segments) =
    record {
      start = segment.start;
      end = segment.end;
      state = segment.state;
      value = if is_empty segment.value then none else some segment.value;
      transitions = above_zero segment.transitions;
      unique_values = above_zero segment.unique_values;
    }
    ∷ overview_segments_to_json segments

pub record SignalOverview : Type 0 where
  pub requested_resolution : Argument
  pub resolution : ℕ
  pub timescale : Str
  pub signal : Str
  pub width : ℕ
  pub radix : Option Radix
  pub segments : List SegmentItem

abbrev pub requested : Argument → Resolution → Argument
requested argument auto = text (codes "auto")
requested argument (every n) = argument

abbrev pub resolved : List Transition → ℕ → ℕ → Resolution → Option ℕ
resolved window start_time end_time auto = choose_auto_resolution window start_time end_time
resolved window start_time end_time (every n) = some n

abbrev pub summary :
    Argument → Resolution → ℕ → Str → SignalInfo → Str → List OverviewSegment → SignalOverview
summary argument resolution step timescale info radix segments = record {
  requested_resolution = requested argument resolution;
  resolution = step;
  timescale = timescale;
  signal = info.path;
  width = info.width;
  radix = if leb info.width 1 then none else some (normalize_radix radix);
  segments = overview_segments_to_json segments;
}

-- The part of the handler behind its checks.
unfoldable pub overview_of : Str → ℕ → ℕ → Argument → Resolution → Str → M (Reply SignalOverview)
overview_of path start_time end_time argument resolution radix = do
  info ← get_signal_info path
  all ← get_transitions path
  let window = get_window_transitions all start_time end_time
  start_value ← get_value_at_time path start_time
  step ← returned (resolved window start_time end_time resolution)
  segments ←
      returned
        (build_signal_overview_segments info radix window start_time end_time step start_value)
  timescale ← gets (λ db. db.timescale)
  pure (success (summary argument resolution step timescale info radix segments))

unfoldable pub get_signal_overview : Str → ℕ → ℕ → Argument → Str → M (Reply SignalOverview)
unfolding overview_of parse_overview_resolution
get_signal_overview path start_time end_time argument radix = with_signal path (
    if ltb end_time start_time
    then pure (error start_after_end)
    else elim (parse_overview_resolution argument) [
      | error message ↦ pure (error message)
      | success resolution ↦ overview_of path start_time end_time argument resolution radix
    ])
