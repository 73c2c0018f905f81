-- ===== src/Api/Condition.antt =====
-- find_condition of AgentAPI.cpp.
pub mod Earliest
use auto_waveform_debugger.Base.{
  ℕ, Option, none, some, List, [], ◌∷◌, Str, codes, str_eq, if◌then◌else◌, reverse,
}
use auto_waveform_debugger.Base.Scan.{words}
use auto_waveform_debugger.Wave.Signal.{Transition}
use auto_waveform_debugger.Wave.Timeline.{from_lower, until_upper}
use auto_waveform_debugger.Wave.Database.{
  M, ◌>>=◌, pure, has_signal, get_transitions, get_value_at_time,
}
use auto_waveform_debugger.Api.Reply.{
  Reply, success, error, bad_expression, bad_direction, unknown_signal,
}

-- The first transition from the iterator on that has the value; backwards, over the reversed list.
unfoldable pub first_with_value : Str → List Transition → Option ℕ
first_with_value val [] = none
first_with_value val (x ∷ it) =
    let rest = first_with_value val it in if str_eq x.value val then some x.timestamp else rest

unfoldable pub search_value : Str → Str → ℕ → Str → M (Reply (Option ℕ))
unfolding first_with_value
search_value path val start_time direction = do
  trans ← get_transitions path
  if str_eq direction (codes "forward")
      then (do
        now ← get_value_at_time path start_time
        if str_eq now val
            then pure (success (some start_time))
            else pure (success (first_with_value val (from_lower start_time trans))))
      else if str_eq direction (codes "backward")
      then (do
        now ← get_value_at_time path start_time
        if str_eq now val
            then pure (success (some start_time))
            else pure (success (first_with_value val (reverse (until_upper start_time trans)))))
      else pure (error bad_direction)

-- The three words of "PATH == VALUE"; more words are passed over.
unfoldable pub parse_condition : List Str → Option (Str × Str)
parse_condition (path ∷ op ∷ val ∷ rest) = if str_eq op (codes "==") then some (path, val) else none
parse_condition [] = none
parse_condition (path ∷ []) = none
parse_condition (path ∷ op ∷ []) = none

unfoldable pub find_condition : Str → ℕ → Str → M (Reply (Option ℕ))
unfolding search_value parse_condition
find_condition expression start_time direction = elim (parse_condition (words expression)) [
  | none ↦ pure (error bad_expression)
  | some (path, val) ↦ (do
    known ← has_signal path
    if known
        then search_value path val start_time direction
        else pure (error (unknown_signal path)))
]
