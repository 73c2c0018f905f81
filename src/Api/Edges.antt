-- ===== src/Api/Edges.antt =====
-- find_edge of AgentAPI.cpp.
pub mod First
use auto_waveform_debugger.Base.{
  ℕ, ◌-◌, ◌≡◌, Bool, true, false, not, ◌&&◌, ◌||◌, Option, none, some, List, [], ◌∷◌, Str, codes,
  str_eq, if◌then◌else◌, ltb, reverse, is_empty,
}
use auto_waveform_debugger.Wave.Signal.{Transition}
use auto_waveform_debugger.Wave.Timeline.{from_lower, until_upper, unknown}
use auto_waveform_debugger.Wave.Database.{M, ◌>>=◌, pure, get_transitions, get_value_at_time}
use auto_waveform_debugger.Api.Reply.{Reply, success, error, signal_not_found, with_signal}

unfoldable pub edge_matches : Str → Str → Str → Bool
edge_matches edge_type prev_val cur_val =
    if str_eq edge_type (codes "posedge")
      && (str_eq prev_val (codes "0") && str_eq cur_val (codes "1"))
    then true
    else if str_eq edge_type (codes "negedge")
        && (str_eq prev_val (codes "1") && str_eq cur_val (codes "0"))
    then true
    else str_eq edge_type (codes "anyedge") && not (str_eq prev_val cur_val)

-- The forward loop, from the iterator on.
unfoldable pub forward_edges : Str → Str → ℕ → List Transition → M (Reply (Option ℕ))
forward_edges path edge_type start_time [] = pure (success none)
forward_edges path edge_type start_time (x ∷ it) =
    let rest = forward_edges path edge_type start_time it in
    if ltb start_time x.timestamp
    then (do
      prev_val ← get_value_at_time path (x.timestamp - 1)
      if edge_matches edge_type prev_val x.value then pure (success (some x.timestamp)) else rest)
    else rest

abbrev pub previous_value : List Transition → Str
previous_value [] = unknown
previous_value (x ∷ xs) = x.value

-- The backward loop: the transitions from the iterator back to the first.
unfoldable pub backward_edges : Str → List Transition → Option ℕ
backward_edges edge_type [] = none
backward_edges edge_type (x ∷ before) =
    let rest = backward_edges edge_type before in
    if edge_matches edge_type (previous_value before) x.value then some x.timestamp else rest

unfoldable pub find_edge : Str → Str → ℕ → Str → M (Reply (Option ℕ))
unfolding forward_edges backward_edges
find_edge path edge_type start_time direction = with_signal path do
  trans ← get_transitions path
  if is_empty trans
      then pure (success none)
      else if str_eq direction (codes "forward")
      then forward_edges path edge_type start_time (from_lower start_time trans)
      else pure (success (backward_edges edge_type (reverse (until_upper start_time trans))))
