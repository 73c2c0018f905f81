-- ===== src/Api/Overview/Estimate.antt =====
-- estimated_segment_count_for of AgentAPI.cpp against the segments that are built.
use auto_waveform_debugger.Base.{
  ℕ, zero, suc, ◌+◌, ◌-◌, ◌≤◌, ◌<◌, ◌≡◌, refl, false, some, List, [], ◌∷◌, Str, arith,
  if◌then◌else◌, ltb, ◌==◌, length, max_u64, Bool-cases, inl, inr,
}
use auto_waveform_debugger.Wave.Signal.{Transition, SignalInfo}
use auto_waveform_debugger.Api.Overview.{
  OverviewSegment, push_segment, append_overview_segment, stable_segment,
  append_stable_overview_segment, starts_burst, take_burst, last_of, flipping_end, flipping_segment,
  unique_count, Sweep, close_stable, sweep_burst, breaks, sweep_single, sweep, finish_sweep,
  build_signal_overview_segments, Count, count_burst, count_single, count_loop, finish_count,
  estimated_segment_count_for,
}
use auto_waveform_debugger.Api.Overview.Tiling.{Within, take_burst-Within, Within-mono}

length-push_segment :
    (segments : List OverviewSegment) (next : OverviewSegment)
    → length (push_segment segments next) ≤ length segments + 1
unfolding push_segment
length-push_segment [] next = omega arith
length-push_segment (prev ∷ []) next = ground arith
length-push_segment (s ∷ t ∷ ts) next = omega (arith, length-push_segment (t ∷ ts) next)

length-append_overview_segment :
    (segments : List OverviewSegment) (next : OverviewSegment)
    → length (append_overview_segment segments next) ≤ length segments + 1
unfolding append_overview_segment
length-append_overview_segment segments next = ground (arith, length-push_segment segments next)

-- Both loops are at one cursor, and the count is not below the number of segments.
record IsCounted (s : Sweep) (c : Count) : Type 0 where
  together : s.cursor ≡ c.cursor
  enough : length s.segments ≤ c.count

module _ (info : SignalInfo) (radix : Str) where
  close_stable-counted :
      (s : Sweep) (c : Count) (time : ℕ)
      → IsCounted s c
      → length (close_stable info radix s time)
        ≤ (if ltb c.cursor time then c.count + 1 else c.count)
  unfolding close_stable append_stable_overview_segment
  close_stable-counted s c time h = rw (← h.together) (
      ground (
        arith,
        h.enough,
        length-append_overview_segment s.segments
            (stable_segment info s.cursor (time - 1) s.current_value radix),
      ))

  sweep_single-IsCounted :
      (s : Sweep) (c : Count) (current : Transition)
      → IsCounted s c
      → IsCounted (sweep_single info radix s current) (count_single c current)
  unfolding sweep_single count_single
  sweep_single-IsCounted s c current h = record {
    together = refl;
    enough = close_stable-counted s c current.timestamp h;
  }

  sweep_burst-IsCounted :
      (s : Sweep) (c : Count) (current : Transition) (members : List Transition)
      → IsCounted s c
      → (last_of current members).timestamp < max_u64
      → IsCounted (sweep_burst info radix s current members) (count_burst c current members)
  unfolding sweep_burst count_burst
  sweep_burst-IsCounted s c current members h small =
      let edge : ((last_of current members).timestamp == max_u64) ≡ false = ground arith in
      record {
        together = rw edge (ground arith);
        enough = omega (
          arith,
          close_stable-counted s c current.timestamp h,
          length-append_overview_segment (close_stable info radix s current.timestamp) (
              flipping_segment info current.timestamp
                (flipping_end current.timestamp (last_of current members).timestamp)
                (length members + 1) (unique_count (s.current_value ∷ []) (current ∷ members))),
        );
      }

  sweep-IsCounted :
      (e resolution fuel : ℕ) (s : Sweep) (c : Count) (window : List Transition)
      → 1 ≤ resolution
      → e < max_u64
      → length window < fuel
      → Within c.cursor e window
      → IsCounted s c
      → (s' : Sweep) × (c' : Count) × (sweep info radix fuel resolution s window ≡ some s')
        × (count_loop fuel resolution c window ≡ some c')
        × IsCounted s' c'
  unfolding sweep count_loop
  sweep-IsCounted e resolution zero s c window r small enough w h = absurd (omega arith)
  sweep-IsCounted e resolution (suc fuel) s c [] r small enough w h = (s, c, refl, refl, h)
  sweep-IsCounted e resolution (suc fuel) s c (current ∷ rest) r small enough w h =
      elim (Bool-cases (starts_burst resolution current rest)) [
        | inr single ↦ rw single (
            sweep-IsCounted e resolution fuel (sweep_single info radix s current)
              (count_single c current) rest r small (omega arith) (single_cursor c current rest w.2)
              (sweep_single-IsCounted s c current h))
        | inl burst ↦
            let (rises, within, after, short) =
              take_burst-Within resolution e current rest r w.1 w.2 in
            let members = (take_burst resolution current rest).0 in
            let edge : ((last_of current members).timestamp == max_u64) ≡ false = ground arith in
            let goes_on : breaks info radix current members ≡ false = rw edge (ground arith) in
            rw (burst, goes_on)
              (sweep-IsCounted e resolution fuel (sweep_burst info radix s current members)
                (count_burst c current members) (take_burst resolution current rest).1 r small
                (omega arith)
                (burst_cursor c current members (take_burst resolution current rest).1 rises after)
                (sweep_burst-IsCounted s c current members h (omega arith)))
      ]
    where
      single_cursor :
          (c : Count) (current : Transition) (rest : List Transition)
          → Within current.timestamp e rest
          → Within (count_single c current).cursor e rest
      single_cursor c current rest w = unfold count_single in w

      burst_cursor :
          (c : Count) (current : Transition) (members remaining : List Transition)
          → current.timestamp ≤ (last_of current members).timestamp
          → Within ((last_of current members).timestamp + 1) e remaining
          → Within (count_burst c current members).cursor e remaining
      burst_cursor c current members remaining rises w =
          unfold count_burst in
          Within-mono info radix ((last_of current members).timestamp + 1) _ e remaining
            (ground arith) w

  -- For transitions in time order inside the window, a resolution of at least 1 and an end below the
  -- last 64-bit time, both the estimate and the overview are computed, on the fuel that is given,
  -- and the overview has no more segments than the estimate says.
  pub length-build :
      (window : List Transition) (start_time end_time resolution : ℕ) (start_value : Str)
      → 1 ≤ resolution
      → end_time < max_u64
      → Within start_time end_time window
      → (segments : List OverviewSegment) × (n : ℕ) × (build_signal_overview_segments info radix
            window start_time end_time resolution start_value
          ≡ some segments)
        × (estimated_segment_count_for window start_time end_time resolution ≡ some n)
        × (length segments ≤ n)
  unfolding build_signal_overview_segments estimated_segment_count_for
  length-build window start_time end_time resolution start_value r small w =
      let (s, c, result, counted, h) =
        sweep-IsCounted end_time resolution (suc (length window))
          (record { segments = []; cursor = start_time; current_value = start_value })
          (record { count = 0; cursor = start_time }) window r small (omega arith) w
          (record { together = refl; enough = omega arith }) in
      (
        finish_sweep info radix end_time s,
        finish_count end_time c,
        rw (result, build_signal_overview_segments) refl,
        rw (counted, estimated_segment_count_for) refl,
        finish s c h,
      )
    where
      finish :
          (s : Sweep) (c : Count)
          → IsCounted s c
          → length (finish_sweep info radix end_time s) ≤ finish_count end_time c
      finish s c h =
          unfold finish_sweep append_stable_overview_segment in
          rw (← h.together) (
            ground (
              arith,
              h.enough,
              length-append_overview_segment s.segments
                  (stable_segment info s.cursor end_time s.current_value radix),
            ))
