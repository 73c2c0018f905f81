-- ===== src/Api/History.antt =====
-- The queries of AgentAPI.cpp about a signal's transitions: get_transitions, count_transitions,
-- get_last_transition_time, and the values at a time.
pub mod Window
use auto_waveform_debugger.Base.{
  ℕ, zero, suc, ◌+◌, ◌-◌, Bool, true, false, not, ◌&&◌, ◌||◌, Option, none, some, List, [], ◌∷◌,
  Str, codes, str_eq, if◌then◌else◌, ltb, leb, ◌==◌, last?,
}
use auto_waveform_debugger.Wave.Signal.{Transition, SignalInfo}
use auto_waveform_debugger.Wave.Timeline.{from_lower, until_lower, unknown, value_or_unknown}
use auto_waveform_debugger.Wave.Database.{
  M, ◌>>=◌, pure, has_signal, get_signal_info, get_transitions, get_value_at_time,
}
use auto_waveform_debugger.Api.Values.{simplify_scalar_value}
use auto_waveform_debugger.Api.Format.{format_multibit_value}
use auto_waveform_debugger.Api.Reply.{
  Reply, success, error, start_after_end, bad_edge_type, with_signal,
}

-- The loop of get_transitions, and whether a transition of the window is left. `room` is
-- max_limit - count; a negative limit is 0.
unfoldable pub history_loop : ℕ → ℕ → List Transition → List Transition × Bool
history_loop end_time room [] = ([], false)
history_loop end_time zero (x ∷ it) = ([], leb x.timestamp end_time)
history_loop end_time (suc room) (x ∷ it) =
    let (history, truncated) = history_loop end_time room it in
    if leb x.timestamp end_time then (x ∷ history, truncated) else ([], false)

pub record History : Type 0 where
  pub history : List Transition
  pub truncated : Bool

unfoldable pub get_history : Str → ℕ → ℕ → ℕ → M (Reply History)
unfolding history_loop
get_history path start_time end_time max_limit = with_signal path (
    if ltb end_time start_time then pure (error start_after_end) else (do
      trans ← get_transitions path
      let r = history_loop end_time max_limit (from_lower start_time trans)
      pure (success (record { history = r.0; truncated = r.1 }))))

pub record ClassifiedTransition : Type 0 where
  pub changed : Bool
  pub matches_requested_edge : Bool
  pub event : Str
  pub value_before : Str
  pub value_after : Str

abbrev scalar_event : Str → Str → Str
scalar_event before after =
    if str_eq before (codes "0") && str_eq after (codes "1")
    then codes "posedge"
    else if str_eq before (codes "1") && str_eq after (codes "0")
    then codes "negedge"
    else codes "anyedge"

unfoldable pub classify_transition_event : SignalInfo → Str → Str → Str → ClassifiedTransition
classify_transition_event info raw_before raw_after requested =
    let before = if leb info.width 1 then simplify_scalar_value raw_before else raw_before in
    let after = if leb info.width 1 then simplify_scalar_value raw_after else raw_after in
    if str_eq before after
    then record {
      changed = false;
      matches_requested_edge = false;
      event = [];
      value_before = before;
      value_after = after;
    }
    else if leb info.width 1
    then record {
      changed = true;
      matches_requested_edge =
          str_eq requested (codes "anyedge") || str_eq requested (scalar_event before after);
      event = scalar_event before after;
      value_before = before;
      value_after = after;
    }
    else record {
      changed = true;
      matches_requested_edge = true;
      event = codes "toggle";
      value_before = before;
      value_after = after;
    }

abbrev counts : SignalInfo → Str → Str → Str → Bool
counts info edge_type before after =
    let event = classify_transition_event info before after edge_type in
    event.changed && event.matches_requested_edge

-- The loop of count_transitions.
unfoldable pub count_events : SignalInfo → Str → ℕ → Str → List Transition → ℕ
count_events info edge_type end_time running [] = 0
count_events info edge_type end_time running (x ∷ it) =
    let rest = count_events info edge_type end_time x.value it in
    if leb x.timestamp end_time
    then if counts info edge_type running x.value then 1 + rest else rest
    else 0

abbrev is_edge_type : Str → Bool
is_edge_type e =
    str_eq e (codes "posedge") || (str_eq e (codes "negedge") || str_eq e (codes "anyedge"))

unfoldable pub effective_count_mode : SignalInfo → Str → Str
effective_count_mode info requested = if leb info.width 1 then requested else codes "toggle"

pub record CountReply : Type 0 where
  pub count : ℕ
  pub signal : Str
  pub width : ℕ
  pub effective_mode : Str

-- The value before the window: that of the transition before the iterator.
unfoldable pub count_transitions : Str → ℕ → ℕ → Str → M (Reply CountReply)
unfolding count_events effective_count_mode
count_transitions path start_time end_time edge_type = with_signal path (
    if ltb end_time start_time then pure (error start_after_end) else (do
      info ← get_signal_info path
      if leb info.width 1 && not (is_edge_type edge_type) then pure (error bad_edge_type) else (do
        trans ← get_transitions path
        pure (
            success (record {
              count =
                  count_events info edge_type end_time
                    (value_or_unknown (last? (until_lower start_time trans)))
                    (from_lower start_time trans);
              signal = info.path;
              width = info.width;
              effective_mode = effective_count_mode info edge_type;
            })))))

-- -1 for a signal with no transition is `none`.
unfoldable pub get_last_transition_time : Str → M (Reply (Option ℕ))
get_last_transition_time path = with_signal path do
  trans ← get_transitions path
  pure (success (elim (last? trans) [ none ↦ none | some x ↦ some x.timestamp ]))

unfoldable pub get_raw_value_at_time : Str → ℕ → M (Reply Str)
get_raw_value_at_time path time =
    with_signal path do value ← get_value_at_time path time; pure (success value)

abbrev pub transition_at : ℕ → List Transition → Bool
transition_at time [] = false
transition_at time (x ∷ it) = x.timestamp == time

unfoldable pub value_text : SignalInfo → Str → Bool → Str → Str → Str
value_text info radix at_time value_before value =
    if leb info.width 1
    then (if at_time && (str_eq value_before (codes "0") && str_eq value (codes "1"))
        then codes "rising"
        else if at_time && (str_eq value_before (codes "1") && str_eq value (codes "0"))
        then codes "falling"
        else simplify_scalar_value value)
    else if at_time && not (str_eq value_before value)
    then codes "changing"
    else format_multibit_value value info.width radix

unfoldable pub format_signal_value_at_time : Str → ℕ → Str → M Str
unfolding value_text
format_signal_value_at_time path time radix = do
  known ← has_signal path
  if known
      then (do
        info ← get_signal_info path
        trans ← get_transitions path
        value ← get_value_at_time path time
        value_before ← if time == 0 then pure unknown else get_value_at_time path (time - 1)
        pure
            (value_text info radix (transition_at time (from_lower time trans)) value_before value))
      else pure (codes "x")

unfoldable pub get_value : Str → ℕ → Str → M (Reply Str)
unfolding format_signal_value_at_time
get_value path time radix =
    with_signal path do text ← format_signal_value_at_time path time radix; pure (success text)

-- The entries of the "data" object, in the order of the request.
unfoldable pub get_snapshot : List Str → ℕ → Str → M (List (Str × Str))
unfolding format_signal_value_at_time
get_snapshot [] time radix = pure []
get_snapshot (path ∷ paths) time radix = do
  text ← format_signal_value_at_time path time radix
  entries ← get_snapshot paths time radix
  pure ((path, text) ∷ entries)
