-- ===== src/Api/Overview/Tiling.antt =====
-- build_signal_overview_segments of AgentAPI.cpp: the segments cover the window without a gap or an
-- overlap.
use auto_waveform_debugger.Base.{
  ℕ, zero, suc, ◌+◌, ◌-◌, ◌%◌, ◌≤◌, ◌<◌, ◌≡◌, refl, false, ◌&&◌, some, List, [], ◌∷◌, Str, arith,
  if◌then◌else◌, ltb, leb, ◌==◌, length, word64, max_u64, Bool-cases, inl, inr, ltb→lt,
}
use auto_waveform_debugger.Wave.Signal.{Transition, SignalInfo}
use auto_waveform_debugger.Api.Overview.{
  OverviewSegment, same_overview_segment_shape, push_segment, append_overview_segment,
  stable_segment, append_stable_overview_segment, is_close, starts_burst, take_burst, last_of,
  flipping_end, flipping_segment, unique_count, Sweep, close_stable, sweep_burst, breaks,
  sweep_single, sweep, finish_sweep, build_signal_overview_segments,
}

-- From `a` up to, and without, `b`: each segment begins where the one before it ended.
abbrev pub Covers : ℕ → ℕ → List OverviewSegment → Type 0
Covers a b [] = a ≡ b
Covers a b (s ∷ ss) = (s.start ≡ a) × (s.start ≤ s.end) × Covers (s.end + 1) b ss

pub push_segment-Covers :
    (a b : ℕ) (segments : List OverviewSegment) (next : OverviewSegment)
    → Covers a b segments
    → next.start ≡ b
    → next.start ≤ next.end
    → Covers a (next.end + 1) (push_segment segments next)
unfolding push_segment
push_segment-Covers a b [] next h e k = (omega arith, k, refl)
push_segment-Covers a b (prev ∷ []) next h e k =
    elim (Bool-cases
      ((prev.end + 1) % word64 == next.start && same_overview_segment_shape prev next)) [
        | inl merged ↦ rw merged (h.0, omega arith, refl)
        | inr apart ↦ rw apart (h.0, h.1, (omega arith, k, refl))
      ]
push_segment-Covers a b (s ∷ t ∷ ts) next h e k =
    (h.0, h.1, push_segment-Covers (s.end + 1) b (t ∷ ts) next h.2 e k)

append-Covers :
    (a b : ℕ) (segments : List OverviewSegment) (next : OverviewSegment)
    → Covers a b segments
    → next.start ≡ b
    → next.start ≤ next.end
    → Covers a (next.end + 1) (append_overview_segment segments next)
unfolding append_overview_segment
append-Covers a b segments next h e k =
    let proper : ltb next.end next.start ≡ false = ground arith in
    rw proper (push_segment-Covers a b segments next h e k)

-- In time order from `n` on, and up to `e`.
abbrev pub Within : ℕ → ℕ → List Transition → Type 0
Within n e [] = Unit
Within n e (x ∷ xs) = (n ≤ x.timestamp) × (x.timestamp ≤ e) × Within x.timestamp e xs

-- A burst ends at its last transition, and what is behind it comes later.
pub take_burst-Within :
    (resolution e : ℕ) (prev : Transition) (rest : List Transition)
    → 1 ≤ resolution
    → prev.timestamp ≤ e
    → Within prev.timestamp e rest
    → let burst = take_burst resolution prev rest in
      let last = last_of prev burst.0 in
      (prev.timestamp ≤ last.timestamp)
      × (last.timestamp ≤ e)
      × Within (last.timestamp + 1) e burst.1
      × (length burst.1 ≤ length rest)
unfolding take_burst
take_burst-Within resolution e prev [] r p w = (omega arith, p, tt, omega arith)
take_burst-Within resolution e prev (next ∷ rest) r p w =
    elim (Bool-cases (is_close resolution prev next)) [
      | inl near ↦
          let (a, b, c, d) = take_burst-Within resolution e next rest r w.1 w.2 in
          rw near (omega arith, b, c, omega arith)
      | inr far ↦ rw far (omega arith, p, (ground arith, w.1, w.2), omega arith)
    ]

module _ (info : SignalInfo) (radix : Str) where
  stable_start : (start end : ℕ) (v : Str) → (stable_segment info start end v radix).start ≡ start
  stable_start start end v = ground arith

  stable_end : (start end : ℕ) (v : Str) → (stable_segment info start end v radix).end ≡ end
  stable_end start end v = ground arith

  append_stable-Covers :
      (a : ℕ) (segments : List OverviewSegment) (start end : ℕ) (v : Str)
      → Covers a start segments
      → start ≤ end
      → Covers a (end + 1) (append_stable_overview_segment segments info start end v radix)
  unfolding append_stable_overview_segment
  append_stable-Covers a segments start end v h k = rw (stable_end start end v) at (
      append-Covers a start segments (stable_segment info start end v radix) h
        (stable_start start end v)
        (omega (arith, stable_start start end v, stable_end start end v)))

  close_stable-Covers :
      (a : ℕ) (s : Sweep) (time : ℕ)
      → Covers a s.cursor s.segments
      → s.cursor ≤ time
      → Covers a time (close_stable info radix s time)
  unfolding close_stable
  close_stable-Covers a s time h k = elim (Bool-cases (ltb s.cursor time)) [
    | inl gap ↦
        let e : (time - 1) + 1 ≡ time = omega (arith, ltb→lt s.cursor time gap) in
        rw gap (
          rw e at (
            append_stable-Covers a s.segments s.cursor (time - 1) s.current_value h
              (omega (arith, ltb→lt s.cursor time gap))))
    | inr none_left ↦ let e : s.cursor ≡ time = ground arith in rw none_left (rw e at h)
  ]

  pub flipping_end-lem :
      (first last : ℕ)
      → first ≤ last
      → (first ≤ flipping_end first last)
        × (flipping_end first last + 1
            ≡ (if flipping_end first last == last then last + 1 else last))
  flipping_end-lem first last h = ground arith

  -- A burst that does not end the loop.
  sweep_burst-Covers :
      (a e : ℕ) (s : Sweep) (current : Transition) (members : List Transition)
      → Covers a s.cursor s.segments
      → s.cursor ≤ current.timestamp
      → current.timestamp ≤ (last_of current members).timestamp
      → (last_of current members).timestamp ≤ e
      → e < max_u64
      → let s' = sweep_burst info radix s current members in
        Covers a s'.cursor s'.segments
        × (s'.cursor ≤ (last_of current members).timestamp + 1)
        × (breaks info radix current members ≡ false)
  unfolding sweep_burst
  sweep_burst-Covers a e s current members h k l m small =
      let last = (last_of current members).timestamp in
      let first = current.timestamp in
      let (low, high) = flipping_end-lem first last l in
      let edge : (last == max_u64) ≡ false = ground arith in
      let covered =
        append-Covers a first (close_stable info radix s first)
          (flipping_segment info first (flipping_end first last) (length members + 1)
            (unique_count (s.current_value ∷ []) (current ∷ members)))
          (close_stable-Covers a s first h k) refl low in
      (rw (edge, ← high) covered, rw edge (ground arith), rw edge (ground arith))

  pub Within-mono : (n m e : ℕ) (xs : List Transition) → m ≤ n → Within n e xs → Within m e xs
  Within-mono n m e [] h w = tt
  Within-mono n m e (x ∷ xs) h w = (omega arith, w.1, w.2)

  sweep-Covers :
      (a e resolution fuel : ℕ) (s : Sweep) (window : List Transition)
      → 1 ≤ resolution
      → e < max_u64
      → length window < fuel
      → Within s.cursor e window
      → Covers a s.cursor s.segments
      → s.cursor ≤ e + 1
      → (s' : Sweep) × (sweep info radix fuel resolution s window ≡ some s')
        × Covers a s'.cursor s'.segments
        × (s'.cursor ≤ e + 1)
  unfolding sweep sweep_single
  sweep-Covers a e resolution zero s window r small enough w h k = absurd (omega arith)
  sweep-Covers a e resolution (suc fuel) s [] r small enough w h k = (s, refl, h, k)
  sweep-Covers a e resolution (suc fuel) s (current ∷ rest) r small enough w h k =
      elim (Bool-cases (starts_burst resolution current rest)) [
        | inr single ↦ rw single (
            sweep-Covers a e resolution fuel (sweep_single info radix s current) rest r small
              (omega arith) w.2 (close_stable-Covers a s current.timestamp h w.0) (omega arith))
        | inl burst ↦
            let (rises, within, after, short) =
              take_burst-Within resolution e current rest r w.1 w.2 in
            let members = (take_burst resolution current rest).0 in
            let (covers, bound, goes_on) =
              sweep_burst-Covers a e s current members h w.0 rises within small in
            let s' = sweep_burst info radix s current members in
            rw (burst, goes_on)
              (sweep-Covers a e resolution fuel s' (take_burst resolution current rest).1 r small
                (omega arith)
                (Within-mono ((last_of current members).timestamp + 1) s'.cursor e _ bound after)
                covers (omega arith))
      ]

  finish_sweep-Covers :
      (a e : ℕ) (s : Sweep)
      → Covers a s.cursor s.segments
      → s.cursor ≤ e + 1
      → Covers a (e + 1) (finish_sweep info radix e s)
  unfolding finish_sweep
  finish_sweep-Covers a e s h k = elim (Bool-cases (leb s.cursor e)) [
    | inl open_end ↦
        rw open_end (append_stable-Covers a s.segments s.cursor e s.current_value h (ground arith))
    | inr closed ↦ let same : s.cursor ≡ e + 1 = ground arith in rw closed (rw same at h)
  ]

  -- For transitions in time order inside the window, a resolution of at least 1 and an end below the
  -- last 64-bit time, the overview is built, on the fuel that is given, and its segments cover the
  -- window from its start up to and with its end, each beginning where the one before it ended.
  pub build-Covers :
      (window : List Transition) (start_time end_time resolution : ℕ) (start_value : Str)
      → 1 ≤ resolution
      → start_time ≤ end_time
      → end_time < max_u64
      → Within start_time end_time window
      → (segments : List OverviewSegment) × (build_signal_overview_segments info radix window
            start_time end_time resolution start_value
          ≡ some segments)
        × Covers start_time (end_time + 1) segments
  unfolding build_signal_overview_segments
  build-Covers window start_time end_time resolution start_value r h small w =
      let (s, result, covers, bound) =
        sweep-Covers start_time end_time resolution (suc (length window))
          (record { segments = []; cursor = start_time; current_value = start_value }) window r
          small (omega arith) w refl (omega arith) in
      (
        finish_sweep info radix end_time s,
        rw (result, build_signal_overview_segments) refl,
        finish_sweep-Covers start_time end_time s covers bound,
      )
