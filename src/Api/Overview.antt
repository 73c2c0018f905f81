-- ===== src/Api/Overview.antt =====
-- The overview of a signal in AgentAPI.cpp: its window of transitions is cut into stable segments
-- and bursts ("flipping"). Counts of transitions are taken to be below 2^31.
pub mod Tiling
pub mod Estimate
pub mod Auto
use auto_waveform_debugger.Base.{
  ℕ, zero, suc, ◌+◌, ◌-◌, ◌%◌, ◌/◌, ◌≡◌, Bool, true, false, not, ◌&&◌, ◌||◌, Option, none, some,
  List, [], ◌∷◌, ◌++◌, Str, codes, str_eq, if◌then◌else◌, ltb, leb, ◌==◌, length, max, word64,
  max_u64,
}
use auto_waveform_debugger.Wave.Signal.{Transition, SignalInfo}
use auto_waveform_debugger.Wave.Timeline.{from_upper}
use auto_waveform_debugger.Api.Values.{simplify_scalar_value}
use auto_waveform_debugger.Api.Format.{format_multibit_value}

pub record OverviewSegment : Type 0 where
  pub start : ℕ
  pub end : ℕ
  pub state : Str
  pub value : Str
  pub transitions : ℕ
  pub unique_values : ℕ

unfoldable pub same_overview_segment_shape : OverviewSegment → OverviewSegment → Bool
same_overview_segment_shape lhs rhs =
    str_eq lhs.state rhs.state
    && (str_eq lhs.value rhs.value
        && (lhs.transitions == rhs.transitions && lhs.unique_values == rhs.unique_values))

-- Behind the last segment, or as a part of it.
unfoldable pub push_segment : List OverviewSegment → OverviewSegment → List OverviewSegment
push_segment [] next = next ∷ []
push_segment (prev ∷ []) next =
    if (prev.end + 1) % word64 == next.start && same_overview_segment_shape prev next
    then record prev { end = next.end } ∷ []
    else prev ∷ next ∷ []
push_segment (s ∷ t ∷ ts) next = s ∷ push_segment (t ∷ ts) next

unfoldable pub append_overview_segment :
    List OverviewSegment → OverviewSegment → List OverviewSegment
append_overview_segment segments next =
    if ltb next.end next.start then segments else push_segment segments next

abbrev pub stable_segment : SignalInfo → ℕ → ℕ → Str → Str → OverviewSegment
stable_segment info start end raw_value radix =
    if leb info.width 1
    then record {
      start = start;
      end = end;
      state = simplify_scalar_value raw_value;
      value = [];
      transitions = 0;
      unique_values = 0;
    }
    else record {
      start = start;
      end = end;
      state = codes "stable";
      value = format_multibit_value raw_value info.width radix;
      transitions = 0;
      unique_values = 0;
    }

unfoldable pub append_stable_overview_segment :
    List OverviewSegment → SignalInfo → ℕ → ℕ → Str → Str → List OverviewSegment
append_stable_overview_segment segments info start end raw_value radix =
    append_overview_segment segments (stable_segment info start end raw_value radix)

unfoldable pub until_end : ℕ → List Transition → List Transition
until_end end_time [] = []
until_end end_time (x ∷ xs) = if leb x.timestamp end_time then x ∷ until_end end_time xs else []

unfoldable pub get_window_transitions : List Transition → ℕ → ℕ → List Transition
get_window_transitions all start_time end_time = until_end end_time (from_upper start_time all)

-- The test that `next` belongs to the burst of `prev`.
abbrev pub is_close : ℕ → Transition → Transition → Bool
is_close resolution prev next =
    leb prev.timestamp next.timestamp && ltb (next.timestamp - prev.timestamp) resolution

abbrev pub starts_burst : ℕ → Transition → List Transition → Bool
starts_burst resolution current [] = false
starts_burst resolution current (next ∷ rest) = is_close resolution current next

-- The inner loop over j: the transitions of the burst behind `prev`, and those behind the burst.
unfoldable pub take_burst : ℕ → Transition → List Transition → List Transition × List Transition
take_burst resolution prev [] = ([], [])
take_burst resolution prev (next ∷ rest) =
    let (members, remaining) = take_burst resolution next rest in
    if is_close resolution prev next then (next ∷ members, remaining) else ([], next ∷ rest)

abbrev pub last_of : Transition → List Transition → Transition
last_of x [] = x
last_of x (y ∷ ys) = last_of y ys

unfoldable pub seen : Str → List Str → Bool
seen v [] = false
seen v (w ∷ ws) = if str_eq w v then true else seen v ws

-- unique_values_seen.size(), the values inserted in turn
unfoldable pub unique_count : List Str → List Transition → ℕ
unfolding seen
unique_count values [] = length values
unique_count values (x ∷ xs) =
    unique_count (if seen x.value values then values else x.value ∷ values) xs

abbrev pub flipping_end : ℕ → ℕ → ℕ
flipping_end first last =
    let before = if ltb first last then last - 1 else last in
    if ltb before first then first else before

abbrev pub flipping_segment : SignalInfo → ℕ → ℕ → ℕ → ℕ → OverviewSegment
flipping_segment info start end transitions unique = record {
  start = start;
  end = end;
  state = codes "flipping";
  value = [];
  transitions = transitions;
  unique_values = if leb info.width 1 then 0 else unique;
}

-- The variables of build_signal_overview_segments.
pub record Sweep : Type 0 where
  pub segments : List OverviewSegment
  pub cursor : ℕ
  pub current_value : Str

module _ (info : SignalInfo) (radix : Str) where
  -- The stable segment in front of a transition.
  unfoldable pub close_stable : Sweep → ℕ → List OverviewSegment
  close_stable s time =
      if ltb s.cursor time
      then append_stable_overview_segment s.segments info s.cursor (time - 1) s.current_value radix
      else s.segments

  -- A burst: `members` are the transitions behind `current`. The cursor is not moved past the last
  -- time that there is; the loop ends then.
  unfoldable pub sweep_burst : Sweep → Transition → List Transition → Sweep
  sweep_burst s current members =
      let last = last_of current members in
      let fend = flipping_end current.timestamp last.timestamp in
      record {
        segments = append_overview_segment (close_stable s current.timestamp) (
            flipping_segment info current.timestamp fend (length members + 1)
              (unique_count (s.current_value ∷ []) (current ∷ members)));
        cursor =
            if fend == last.timestamp
            then if last.timestamp == max_u64 then last.timestamp else last.timestamp + 1
            else last.timestamp;
        current_value = last.value;
      }

  abbrev pub breaks : Transition → List Transition → Bool
  breaks current members =
      let last = last_of current members in
      flipping_end current.timestamp last.timestamp == last.timestamp && last.timestamp == max_u64

  unfoldable pub sweep_single : Sweep → Transition → Sweep
  sweep_single s current = record {
    segments = close_stable s current.timestamp;
    cursor = current.timestamp;
    current_value = current.value;
  }

  -- The loop over i, on fuel; `none` if the fuel runs out.
  unfoldable pub sweep : ℕ → ℕ → Sweep → List Transition → Option Sweep
  sweep zero resolution s window = none
  sweep (suc fuel) resolution s [] = some s
  sweep (suc fuel) resolution s (current ∷ rest) =
      let members = (take_burst resolution current rest).0 in
      let after_burst = sweep_burst s current members in
      let burst : Option Sweep = elim (breaks current members) [
        | true ↦ some after_burst
        | false ↦ sweep fuel resolution after_burst (take_burst resolution current rest).1
      ] in
      let single = sweep fuel resolution (sweep_single s current) rest in
      if starts_burst resolution current rest then burst else single

  -- The stable segment at the end.
  unfoldable pub finish_sweep : ℕ → Sweep → List OverviewSegment
  finish_sweep end_time s =
      if leb s.cursor end_time
      then append_stable_overview_segment s.segments info s.cursor end_time s.current_value radix
      else s.segments

  unfoldable pub build_signal_overview_segments :
      List Transition → ℕ → ℕ → ℕ → Str → Option (List OverviewSegment)
  build_signal_overview_segments window start_time end_time resolution start_value =
      elim (sweep (suc (length window)) resolution
        (record { segments = []; cursor = start_time; current_value = start_value }) window) [
          | none ↦ none
          | some s ↦ some (finish_sweep end_time s)
        ]

-- estimated_segment_count_for: the same loop, which only counts.
pub record Count : Type 0 where
  pub count : ℕ
  pub cursor : ℕ

unfoldable pub count_burst : Count → Transition → List Transition → Count
count_burst s current members =
    let last = last_of current members in
    record {
      count = (if ltb s.cursor current.timestamp then s.count + 1 else s.count) + 1;
      cursor =
          if flipping_end current.timestamp last.timestamp == last.timestamp
            && not (last.timestamp == max_u64)
          then last.timestamp + 1
          else last.timestamp;
    }

unfoldable pub count_single : Count → Transition → Count
count_single s current = record {
  count = if ltb s.cursor current.timestamp then s.count + 1 else s.count;
  cursor = current.timestamp;
}

unfoldable pub count_loop : ℕ → ℕ → Count → List Transition → Option Count
count_loop zero resolution s window = none
count_loop (suc fuel) resolution s [] = some s
count_loop (suc fuel) resolution s (current ∷ rest) =
    let burst =
      count_loop fuel resolution (count_burst s current (take_burst resolution current rest).0)
        (take_burst resolution current rest).1 in
    let single = count_loop fuel resolution (count_single s current) rest in
    if starts_burst resolution current rest then burst else single

abbrev pub finish_count : ℕ → Count → ℕ
finish_count end_time s = if leb s.cursor end_time then s.count + 1 else s.count

unfoldable pub estimated_segment_count_for : List Transition → ℕ → ℕ → ℕ → Option ℕ
estimated_segment_count_for window start_time end_time resolution =
    elim (count_loop (suc (length window)) resolution (record { count = 0; cursor = start_time })
      window) [ none ↦ none | some s ↦ some (finish_count end_time s) ]

abbrev pub target_segments : ℕ
target_segments = 20

-- The binary search over [low, high], on fuel, for a test that may itself run out of fuel.
unfoldable pub search_resolution : (ℕ → Option ℕ) → ℕ → ℕ → ℕ → Option ℕ
search_resolution estimate zero low high = none
search_resolution estimate (suc fuel) low high =
    let mid = low + (high - low) / 2 in
    let lower = search_resolution estimate fuel low mid in
    let upper = search_resolution estimate fuel (mid + 1) high in
    if ltb low high
    then elim (estimate mid) [
      | none ↦ none
      | some n ↦ if leb n target_segments then lower else upper
    ]
    else some low

-- 65 rounds halve a range of 64-bit numbers to one number.
abbrev pub search_fuel : ℕ
search_fuel = 65

abbrev pub window_span : ℕ → ℕ → ℕ
window_span start_time end_time =
    if leb start_time end_time then (end_time - start_time + 1) % word64 else 1

unfoldable pub choose_auto_resolution : List Transition → ℕ → ℕ → Option ℕ
choose_auto_resolution [] start_time end_time = some 1
choose_auto_resolution (x ∷ xs) start_time end_time =
    let estimate = estimated_segment_count_for (x ∷ xs) start_time end_time in
    let search =
      search_resolution estimate search_fuel 1 (max 1 (window_span start_time end_time)) in
    elim (estimate 1) [ none ↦ none | some n ↦ if leb n target_segments then some 1 else search ]
