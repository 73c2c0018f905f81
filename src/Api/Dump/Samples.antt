-- ===== src/Api/Dump/Samples.antt =====
-- The samples of dump_waveform_data in AgentAPI.cpp.
use auto_waveform_debugger.Base.{
  ℕ, zero, suc, ◌+◌, ◌-◌, ◌≤◌, ◌<◌, ◌≡◌, refl, ap, ◌∙◌, true, some, List, [], ◌∷◌, Str, arith, ltb,
  ◌==◌, if◌then◌else◌, Bool-cases, inl, inr, All, max_u64, word64, ◌%◌,
}
use native.Mathlib.Nat.{mod-eq_of_lt}
use auto_waveform_debugger.Wave.Signal.{Transition, SignalInfo}
use auto_waveform_debugger.Wave.Timeline.{from_lower, value_at, unknown}
use auto_waveform_debugger.Wave.Database.{
  WaveDatabase, pure, has_signal, get_signal_info, get_transitions, get_value_at_time,
}
use auto_waveform_debugger.Wave.Database.Loading.{IsLoaded}
use auto_waveform_debugger.Api.Reply.{>>=-eq_some}
use auto_waveform_debugger.Api.History.{
  transition_at, value_text, format_signal_value_at_time, get_snapshot,
}
use auto_waveform_debugger.Api.Dump.{Sample, sample_loop, sample_fuel}

-- Reads of the path change nothing.
abbrev pub IsRead : WaveDatabase → Str → Type 0
IsRead db path = (info : SignalInfo) × (trans : List Transition) × IsLoaded db path info trans

before_returns :
    (db : WaveDatabase) (path : Str) (time : ℕ)
    → IsRead db path
    → (value : Str) × ((if time == 0 then pure unknown else get_value_at_time path (time - 1)) db
        ≡ some (value, db))
before_returns db path time (info, trans, loaded) = elim (Bool-cases (time == 0)) [
  | inl first ↦ (unknown, rw first refl)
  | inr later ↦ (value_at trans (time - 1), rw later (loaded.sampled (time - 1)))
]

format_returns :
    (db : WaveDatabase) (path : Str) (time : ℕ) (radix : Str)
    → IsRead db path
    → (value : Str) × (format_signal_value_at_time path time radix db ≡ some (value, db))
unfolding format_signal_value_at_time
format_returns db path time radix (info, trans, loaded) =
    let (before, earlier) = before_returns db path time (info, trans, loaded) in
    (
      value_text info radix (transition_at time (from_lower time trans)) before
          (value_at trans time),
      >>=-eq_some (has_signal path) _ db true loaded.known
          ∙ >>=-eq_some (get_signal_info path) _ db info loaded.described
          ∙ >>=-eq_some (get_transitions path) _ db trans loaded.read
          ∙ >>=-eq_some (get_value_at_time path time) _ db _ (loaded.sampled time)
          ∙ >>=-eq_some (if time == 0 then pure unknown else get_value_at_time path (time - 1))
              (λ x. pure (
                value_text info radix (transition_at time (from_lower time trans)) x
                  (value_at trans time)))
              db before earlier,
    )

snapshot_returns :
    (db : WaveDatabase) (paths : List Str) (time : ℕ) (radix : Str)
    → All (IsRead db) paths
    → (values : List (Str × Str)) × (get_snapshot paths time radix db ≡ some (values, db))
unfolding get_snapshot
snapshot_returns db [] time radix h = ([], refl)
snapshot_returns db (path ∷ paths) time radix h =
    let (text, one) = format_returns db path time radix h.0 in
    let (entries, others) = snapshot_returns db paths time radix h.1 in
    (
      (path, text) ∷ entries,
      >>=-eq_some (format_signal_value_at_time path time radix) _ db text one
          ∙ >>=-eq_some (get_snapshot paths time radix) _ db entries others,
    )

-- The samples at `time` and every `step` behind it, up to and with `end_time`, each with what a
-- snapshot of the paths at its time gives.
abbrev pub AreEvery : WaveDatabase → ℕ → List Str → Str → ℕ → ℕ → List Sample → Type 0
AreEvery db step paths radix end_time time [] = end_time < time
AreEvery db step paths radix end_time time (s ∷ samples) =
    (s.time ≡ time)
    × (time ≤ end_time)
    × (get_snapshot paths time radix db ≡ some (s.values, db))
    × AreEvery db step paths radix end_time (time + step) samples

loop_returns :
    (fuel : ℕ) (db : WaveDatabase) (step : ℕ) (paths : List Str) (radix : Str) (end_time time : ℕ)
    → All (IsRead db) paths
    → 1 ≤ step
    → step ≤ max_u64
    → end_time ≤ max_u64
    → 1 ≤ fuel
    → end_time + 1 < time + fuel
    → (samples : List Sample) × (sample_loop fuel step paths radix end_time time db
        ≡ some (samples, db))
      × AreEvery db step paths radix end_time time samples
unfolding sample_loop
loop_returns zero db step paths radix end_time time h pos period small some_fuel enough =
    absurd (omega arith)
loop_returns (suc fuel) db step paths radix end_time time h pos period small some_fuel enough =
    elim (Bool-cases (ltb end_time time)) [
      | inl past ↦ ([], rw past refl, ground arith)
      | inr inside ↦
          let (values, read) = snapshot_returns db paths time radix h in
          elim (Bool-cases (ltb (max_u64 - step) time)) [
            | inl last ↦ (
              record { time = time; values = values } ∷ [],
              rw (inside, last) (>>=-eq_some (get_snapshot paths time radix) _ db values read),
              (refl, ground arith, read, ground arith),
            )
            | inr before ↦
                let bounded : time + step < word64 = ground arith in
                let no_wrap : (time + step) % word64 ≡ time + step = mod-eq_of_lt bounded in
                let (later, others, every) =
                  loop_returns fuel db step paths radix end_time (time + step) h pos period small
                    (ground arith) (omega arith) in
                (
                  record { time = time; values = values } ∷ later,
                  rw (inside, before)
                      (>>=-eq_some (get_snapshot paths time radix) _ db values read
                        ∙ >>=-eq_some
                            (sample_loop fuel step paths radix end_time ((time + step) % word64)) _
                            db later
                            (ap (λ t. sample_loop fuel step paths radix end_time t db) no_wrap
                              ∙ others)),
                  (refl, ground arith, read, every),
                )
          ]
    ]

-- For paths that can be read and a period of at least 1 and at most the last
-- 64-bit number, and an end that is a 64-bit time, the loop ends on the fuel that it is given
-- and changes nothing, and its samples are those at the start and every period behind it, up to and
-- with the end, each with the snapshot of the paths at its time.
pub sample_loop_lem :
    (db : WaveDatabase) (step : ℕ) (paths : List Str) (radix : Str) (start_time end_time : ℕ)
    → All (IsRead db) paths
    → 1 ≤ step
    → step ≤ max_u64
    → end_time ≤ max_u64
    → (samples : List Sample) × (sample_loop
          (sample_fuel start_time end_time)
          step
          paths
          radix
          end_time
          start_time
          db
        ≡ some (samples, db))
      × AreEvery db step paths radix end_time start_time samples
unfolding sample_fuel
sample_loop_lem db step paths radix start_time end_time h pos period small =
    loop_returns (suc (suc (end_time - start_time))) db step paths radix end_time start_time h pos
      period small (omega arith) (omega arith)
