-- ===== src/Api/Overview/Auto.antt =====
-- choose_auto_resolution of AgentAPI.cpp: the resolution that it finds keeps the overview short.
use auto_waveform_debugger.Base.{
  ℕ, zero, suc, ◌+◌, ◌-◌, ◌/◌, ◌^◌, ◌≤◌, ◌<◌, ◌≡◌, refl, true, false, Option, none, some, List, [],
  ◌∷◌, Str, arith, if◌then◌else◌, ltb, leb, length, max, max_u64, Bool-cases, inl, inr,
}
use native.Mathlib.Nat.{pow-suc}
use auto_waveform_debugger.Wave.Signal.{Transition, SignalInfo}
use auto_waveform_debugger.Api.Overview.{
  OverviewSegment, is_close, take_burst, build_signal_overview_segments, Count, count_burst,
  count_single, count_loop, finish_count, estimated_segment_count_for, target_segments,
  search_resolution, search_fuel, window_span, choose_auto_resolution,
}
use auto_waveform_debugger.Api.Overview.Tiling.{Within}
use auto_waveform_debugger.Api.Overview.Estimate.{length-build}

-- A resolution at which the estimate is no more than the target.
abbrev pub IsGood : (ℕ → Option ℕ) → ℕ → Type 0
IsGood estimate r = (n : ℕ) × (estimate r ≡ some n) × (n ≤ target_segments)

abbrev Finds : (ℕ → Option ℕ) → ℕ → ℕ → Option ℕ → Type 0
Finds estimate low high o = (r : ℕ) × (o ≡ some r) × (low ≤ r) × (r ≤ high) × IsGood estimate r

module _ (estimate : ℕ → Option ℕ) (total : (r : ℕ) → 1 ≤ r → (n : ℕ) × (estimate r ≡ some n)) where
  -- From a good upper end the search ends at a good resolution, on fuel for the range's bits.
  search_resolution-Finds :
      (bits low high : ℕ)
      → 1 ≤ low
      → low ≤ high
      → high - low < 2 ^ bits
      → IsGood estimate high
      → Finds estimate low high (search_resolution estimate (suc bits) low high)
  unfolding search_resolution
  search_resolution-Finds zero low high pos h small good =
      let same : low ≡ high = omega arith in
      let closed : ltb low high ≡ false = ground arith in
      rw closed (low, refl, omega arith, h, rw same good)
  search_resolution-Finds (suc bits) low high pos h small good = elim (Bool-cases (ltb low high)) [
    | inr closed ↦
        let same : low ≡ high = ground arith in rw closed (low, refl, omega arith, h, rw same good)
    | inl wide ↦
        let mid = low + (high - low) / 2 in
        let inside : mid < high = ground arith in
        let (n, e) = total mid (omega arith) in
        elim (Bool-cases (leb n target_segments)) [
          | inl few ↦
              let (r, found, a, b, g) =
                search_resolution-Finds bits low mid pos (omega arith)
                  (omega (arith, pow-suc 2 bits)) (n, e, ground arith) in
              (r, rw (wide, e, few) found, a, omega arith, g)
          | inr many ↦
              let (r, found, a, b, g) =
                search_resolution-Finds bits (mid + 1) high (omega arith) (omega arith)
                  (omega (arith, pow-suc 2 bits)) good in
              (r, rw (wide, e, many) found, omega arith, b, g)
        ]
  ]

-- At a resolution above the window's length all transitions are one burst.
take_burst-all :
    (resolution n e : ℕ) (prev : Transition) (rest : List Transition)
    → n ≤ prev.timestamp
    → Within prev.timestamp e rest
    → e - n < resolution
    → (take_burst resolution prev rest).1 ≡ []
unfolding take_burst
take_burst-all resolution n e prev [] h w k = refl
take_burst-all resolution n e prev (next ∷ rest) h w k =
    let near : is_close resolution prev next ≡ true = ground arith in
    rw near (take_burst-all resolution n e next rest (omega arith) w.2 k)

abbrev from_start : ℕ → Count
from_start start_time = record { count = 0; cursor = start_time }

-- No transition, one transition, or one burst of all: three segments at most.
one_burst :
    (start_time end_time resolution : ℕ) (window : List Transition)
    → Within start_time end_time window
    → end_time - start_time < resolution
    → IsGood (estimated_segment_count_for window start_time end_time) resolution
unfolding estimated_segment_count_for count_loop count_single count_burst
one_burst start_time end_time resolution [] w k =
    (finish_count end_time (from_start start_time), refl, ground arith)
one_burst start_time end_time resolution (x ∷ []) w k =
    (finish_count end_time (count_single (from_start start_time) x), refl, ground arith)
one_burst start_time end_time resolution (x ∷ y ∷ ys) w k =
    let near : is_close resolution x y ≡ true = ground arith in
    let all = take_burst-all resolution start_time end_time x (y ∷ ys) w.0 w.2 k in
    (
      finish_count end_time
          (count_burst (from_start start_time) x (take_burst resolution x (y ∷ ys)).0),
      rw (near, all, estimated_segment_count_for) refl,
      ground arith,
    )

module _ (start_time end_time : ℕ) (h : start_time ≤ end_time) (small : end_time < max_u64) where
  span_lem : max 1 (window_span start_time end_time) ≡ end_time - start_time + 1
  span_lem = let ordered : leb start_time end_time ≡ true = ground arith in rw ordered (omega arith)

  -- The first estimate, at resolution 1, or else the search.
  first_estimate :
      (estimate : ℕ → Option ℕ) (searched : Option ℕ)
      → (n : ℕ) × (estimate 1 ≡ some n)
      → Finds estimate 1 (end_time - start_time + 1) searched
      → Finds estimate 1 (end_time - start_time + 1) (elim (estimate 1) [
        | none ↦ none
        | some n ↦ if leb n target_segments then some 1 else searched
      ])
  first_estimate estimate searched (n, e) found = elim (Bool-cases (leb n target_segments)) [
    | inl few ↦ (1, rw (e, few) refl, omega arith, omega arith, (n, e, ground arith))
    | inr many ↦ let (r, f, a, b, g) = found in (r, rw (e, many) f, a, b, g)
  ]

  choose_auto_resolution-Finds :
      (window : List Transition)
      → Within start_time end_time window
      → ((r : ℕ)
          → 1 ≤ r
          → (n : ℕ) × (estimated_segment_count_for window start_time end_time r ≡ some n))
      → Finds
          (estimated_segment_count_for window start_time end_time)
          1
          (end_time - start_time + 1)
          (choose_auto_resolution window start_time end_time)
  unfolding choose_auto_resolution
  choose_auto_resolution-Finds [] w total = (
    1,
    refl,
    omega arith,
    omega arith,
    unfold estimated_segment_count_for count_loop in
        (finish_count end_time (from_start start_time), refl, ground arith),
  )
  choose_auto_resolution-Finds (x ∷ xs) w total =
      let estimate = estimated_segment_count_for (x ∷ xs) start_time end_time in
      first_estimate estimate
        (search_resolution estimate search_fuel 1 (max 1 (window_span start_time end_time)))
        (total 1 (omega arith))
        (rw span_lem (
          search_resolution-Finds estimate total 64 1 (end_time - start_time + 1) (omega arith)
            (omega arith) (omega arith)
            (one_burst start_time end_time (end_time - start_time + 1) (x ∷ xs) w (omega arith))))

-- For transitions in time order inside the window and an end below the last 64-bit time, a
-- resolution is chosen, on the fuel that is given; it is between 1 and the window's length, and the
-- overview that is built with it has at most twenty segments.
pub auto_overview_short :
    (info : SignalInfo) (radix : Str) (window : List Transition) (start_time end_time : ℕ)
    (start_value : Str)
    → start_time ≤ end_time
    → end_time < max_u64
    → Within start_time end_time window
    → (resolution : ℕ) × (segments : List OverviewSegment) × (choose_auto_resolution window
          start_time end_time
        ≡ some resolution)
      × (1 ≤ resolution)
      × (resolution ≤ end_time - start_time + 1)
      × (build_signal_overview_segments info radix window start_time end_time resolution start_value
          ≡ some segments)
      × (length segments ≤ target_segments)
auto_overview_short info radix window start_time end_time start_value h small w =
    let (resolution, chosen, low, high, (n, estimated, few)) =
      choose_auto_resolution-Finds start_time end_time h small window w (λ r pos.
        let (segments, n, built, counted, short) =
          length-build info radix window start_time end_time r start_value pos small w in
        (n, counted)) in
    let (segments, m, built, counted, short) =
      length-build info radix window start_time end_time resolution start_value low small w in
    let same : m ≡ n = cc (counted, estimated) in
    (resolution, segments, chosen, low, high, built, omega arith)
