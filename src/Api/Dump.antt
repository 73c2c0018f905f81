-- ===== src/Api/Dump.antt =====
-- dump_waveform_data of AgentAPI.cpp: its checks and the lines that it writes, without the files.
pub mod Changes
pub mod Order
pub mod Samples
use auto_waveform_debugger.Base.{
  ℕ, zero, suc, ◌+◌, ◌-◌, ◌%◌, Bool, true, false, not, ◌&&◌, ◌||◌, Option, none, some, List, [],
  ◌∷◌, ◌++◌, Str, codes, str_eq, is_empty, ltb, leb, ◌==◌, if◌then◌else◌, max_u64, word64, last?,
}
use auto_waveform_debugger.Base.Text.{str_lt}
use auto_waveform_debugger.Wave.Signal.{Transition, SignalInfo}
use auto_waveform_debugger.Wave.Timeline.{from_lower, until_lower, value_or_unknown}
use auto_waveform_debugger.Wave.Database.{
  M, ◌>>=◌, pure, has_signal, get_signal_info, get_transitions,
}
use auto_waveform_debugger.Api.Values.{Radix, hex, bin, dec, normalize_radix}
use auto_waveform_debugger.Api.Reply.{
  Reply, Message, success, error, start_after_end, no_signals, no_output_path, bad_mode,
  unknown_signal, returned,
}
use auto_waveform_debugger.Api.Arguments.{
  Argument, null, other, number, text, parse_sample_period_arg, extract_sample_period_arg,
}
use auto_waveform_debugger.Api.History.{classify_transition_event, get_snapshot}

pub record DumpTransitionRecord : Type 0 where
  pub timestamp : ℕ
  pub signal : Str
  pub event : Str
  pub value_before : Str
  pub value_after : Str
  pub glitch : Bool

unfoldable pub dump_transition_record_less : DumpTransitionRecord → DumpTransitionRecord → Bool
dump_transition_record_less lhs rhs =
    if lhs.timestamp == rhs.timestamp
    then str_lt lhs.signal rhs.signal
    else ltb lhs.timestamp rhs.timestamp

-- The records of one signal, from the iterator on.
unfoldable pub records_from : SignalInfo → ℕ → Str → List Transition → List DumpTransitionRecord
records_from info end_time running_value [] = []
records_from info end_time running_value (x ∷ it) =
    let event = classify_transition_event info running_value x.value (codes "anyedge") in
    let records = records_from info end_time x.value it in
    let next : DumpTransitionRecord = record {
      timestamp = x.timestamp;
      signal = info.path;
      event = event.event;
      value_before = event.value_before;
      value_after = event.value_after;
      glitch = x.is_glitch;
    } in
    if leb x.timestamp end_time then if event.changed then next ∷ records else records else []

unfoldable pub collect_records : List Str → ℕ → ℕ → M (List DumpTransitionRecord)
unfolding records_from
collect_records [] start_time end_time = pure []
collect_records (path ∷ paths) start_time end_time = do
  info ← get_signal_info path
  transitions ← get_transitions path
  let records =
      records_from info end_time (value_or_unknown (last? (until_lower start_time transitions)))
        (from_lower start_time transitions)
  later ← collect_records paths start_time end_time
  pure (records ++ later)

-- std::sort, as an insertion sort: the order of records that are not less either way is left open
-- by the standard.
unfoldable pub insert_record :
    DumpTransitionRecord → List DumpTransitionRecord → List DumpTransitionRecord
unfolding dump_transition_record_less
insert_record r [] = r ∷ []
insert_record r (s ∷ records) =
    let later = insert_record r records in
    if dump_transition_record_less s r then s ∷ later else r ∷ s ∷ records

unfoldable pub sort_records : List DumpTransitionRecord → List DumpTransitionRecord
unfolding insert_record
sort_records [] = []
sort_records (r ∷ records) = insert_record r (sort_records records)

pub record Sample : Type 0 where
  pub time : ℕ
  pub values : List (Str × Str)

abbrev pub radix_name : Radix → Str
radix_name hex = codes "hex"
radix_name bin = codes "bin"
radix_name dec = codes "dec"

-- The loop over the sample times, on fuel; a time is of 64 bits.
unfoldable pub sample_loop : ℕ → ℕ → List Str → Str → ℕ → ℕ → M (List Sample)
unfolding get_snapshot
sample_loop zero step paths radix end_time time = returned none
sample_loop (suc fuel) step paths radix end_time time = if ltb end_time time then pure [] else (do
  values ← get_snapshot paths time radix
  if ltb (max_u64 - step) time then pure (record { time = time; values = values } ∷ []) else (do
    later ← sample_loop fuel step paths radix end_time ((time + step) % word64)
    pure (record { time = time; values = values } ∷ later)))

-- The resolved paths, or the first path that is not a signal.
unfoldable pub resolve_signals : List Str → M (Reply (List Str))
resolve_signals [] = pure (success [])
resolve_signals (path ∷ paths) = do
  known ← has_signal path
  if known
      then (do
        info ← get_signal_info path
        later ← resolve_signals paths
        pure (elim later [
          | success resolved ↦ success (info.path ∷ resolved)
          | error message ↦ error message
        ]))
      else pure (error (unknown_signal path))

-- What is written, in order.
pub data Dump : Type 0 where
  transitions : List DumpTransitionRecord → Dump
  samples : List Sample → Dump

abbrev pub is_null : Argument → Bool
is_null null = true
is_null other = false
is_null (number n) = false
is_null (text t) = false

-- The checks before the signals are resolved; a missing period is none in the mode transitions, and
-- passes the check in the mode samples.
unfoldable pub check_arguments : List Str → ℕ → ℕ → Str → Str → Argument → Option Message
unfolding parse_sample_period_arg
check_arguments signal_paths start_time end_time output_path mode sample_period =
    if is_empty signal_paths
    then some no_signals
    else if ltb end_time start_time
    then some start_after_end
    else if is_empty output_path
    then some no_output_path
    else if not (str_eq mode (codes "transitions") || str_eq mode (codes "samples"))
    then some bad_mode
    else if str_eq mode (codes "samples") || not (is_null sample_period)
    then parse_sample_period_arg sample_period
    else none

unfoldable pub sample_fuel : ℕ → ℕ → ℕ
sample_fuel start_time end_time = suc (suc (end_time - start_time))

unfoldable pub write_dump : List Str → ℕ → ℕ → Str → Argument → Str → M Dump
unfolding collect_records sort_records sample_loop extract_sample_period_arg sample_fuel
write_dump resolved start_time end_time mode sample_period radix =
    if str_eq mode (codes "transitions")
    then (do
      records ← collect_records resolved start_time end_time
      pure (transitions (sort_records records)))
    else (do
      step ← returned (extract_sample_period_arg sample_period)
      records ←
          sample_loop (sample_fuel start_time end_time) step resolved
            (radix_name (normalize_radix radix)) end_time start_time
      pure (samples records))

unfoldable pub dump_waveform_data : List Str → ℕ → ℕ → Str → Str → Argument → Str → M (Reply Dump)
unfolding check_arguments resolve_signals write_dump
dump_waveform_data signal_paths start_time end_time output_path mode sample_period radix =
    elim (check_arguments signal_paths start_time end_time output_path mode sample_period) [
      | some message ↦ pure (error message)
      | none ↦ (do
        resolved ← resolve_signals signal_paths
        elim resolved [
          | error message ↦ pure (error message)
          | success paths ↦ (do
            dump ← write_dump paths start_time end_time mode sample_period radix
            pure (success dump))
        ])
    ]
