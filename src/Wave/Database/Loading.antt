-- ===== src/Wave/Database/Loading.antt =====
-- The lazy loading of transitions in WaveDatabase.cpp: when a read cannot throw, and what a second
-- read returns.
use auto_waveform_debugger.Base.{
  ℕ, ◌≡◌, true, false, none, some, List, [], Str, arith, ◌⊎◌, inl, inr, Bool-cases, Option-cases,
}
use auto_waveform_debugger.Base.Dict
use auto_waveform_debugger.Base.Dict.{Dict}
use auto_waveform_debugger.Wave.Signal.{Transition, SignalInfo, FormatAdapter}
use auto_waveform_debugger.Wave.Timeline.{value_at}
use auto_waveform_debugger.Wave.Database.{
  WaveDatabase, resolve_query_path, has_signal, get_signal_info, get_transitions, get_value_at_time,
}

-- What FormatAdapter.h says of `LoadSignalTransitions` in a format that loads on demand: it returns
-- true if the transitions are then there. It takes no entry away, and a failed load changes nothing.
pub record IsLazy (adapter : FormatAdapter) : Type 0 where
  pub honest :
      (info : SignalInfo) (m : Dict (List Transition))
      → (adapter.load_signal_transitions info m).0 ≡ true
      → Dict.contains info.signal_id (adapter.load_signal_transitions info m).1 ≡ true
  pub failed :
      (info : SignalInfo) (m : Dict (List Transition))
      → (adapter.load_signal_transitions info m).0 ≡ false
      → (adapter.load_signal_transitions info m).1 ≡ m

-- A format that is read eagerly has transitions for the identifier of each signal.
abbrev pub IsEager : Dict SignalInfo → Dict (List Transition) → Type 0
IsEager infos m =
    (path : Str) (info : SignalInfo)
    → Dict.lookup path infos ≡ some info
    → Dict.contains info.signal_id m ≡ true

abbrev pub IsReady : WaveDatabase → Type 0
IsReady db =
    IsEager db.signal_info db.id_transitions
    ⊎ ((adapter : FormatAdapter) × (db.adapter ≡ some adapter) × IsLazy adapter)

-- Reads of `path` change nothing, and return the signal `info` with the transitions `trans`.
pub record IsLoaded (db : WaveDatabase) (path : Str) (info : SignalInfo) (trans : List Transition)
    : Type 0 where
  pub known : has_signal path db ≡ some (true, db)
  pub described : get_signal_info path db ≡ some (info, db)
  pub read : get_transitions path db ≡ some (trans, db)
  pub sampled : (t : ℕ) → get_value_at_time path t db ≡ some (value_at trans t, db)

-- The states in which a path is found, and its transitions are there or cannot be had.
module _ (db : WaveDatabase) (path : Str) (info : SignalInfo)
    (found : Dict.lookup (resolve_query_path db path) db.signal_info ≡ some info) where
  pub present-IsLoaded :
      (trans : List Transition)
      → Dict.lookup info.signal_id db.id_transitions ≡ some trans
      → IsLoaded db path info trans
  unfolding has_signal get_signal_info get_transitions get_value_at_time
  present-IsLoaded trans there = record {
    known = ground arith;
    described = ground arith;
    read = ground arith;
    sampled = λ t. ground arith;
  }

  absent-IsLoaded :
      (adapter : FormatAdapter)
      → db.adapter ≡ some adapter
      → Dict.lookup info.signal_id db.id_transitions ≡ none
      → adapter.load_signal_transitions info db.id_transitions ≡ (false, db.id_transitions)
      → IsLoaded db path info []
  unfolding has_signal get_signal_info get_transitions get_value_at_time value_at
  absent-IsLoaded adapter e missing fails = record {
    known = ground arith;
    described = ground arith;
    read = ground arith;
    sampled = λ t. ground arith;
  }

-- The state after the adapter has been asked for a signal.
abbrev asked : WaveDatabase → Dict (List Transition) → WaveDatabase
asked db m = record db { id_transitions = m }

abbrev pub FirstRead : WaveDatabase → Str → SignalInfo → Type 0
FirstRead db path info =
    (trans : List Transition) × (db' : WaveDatabase) × (get_transitions path db ≡ some (trans, db'))
    × IsLoaded db' path info trans
    × IsReady db'

module _ (db : WaveDatabase) (path : Str) (info : SignalInfo)
    (found : Dict.lookup (resolve_query_path db path) db.signal_info ≡ some info) where
  lazy_read :
      (adapter : FormatAdapter)
      → db.adapter ≡ some adapter
      → IsLazy adapter
      → Dict.lookup info.signal_id db.id_transitions ≡ none
      → FirstRead db path info
  unfolding get_transitions resolve_query_path
  lazy_read adapter e lawful missing =
      elim (Bool-cases (adapter.load_signal_transitions info db.id_transitions).0) [
        | inl done ↦
            elim (Option-cases (
              Dict.lookup info.signal_id
                (adapter.load_signal_transitions info db.id_transitions).1)) [
                  | inl lost ↦ absurd (ground (arith, lawful.honest info db.id_transitions))
                  | inr (trans, there) ↦ (
                    trans,
                    asked db (adapter.load_signal_transitions info db.id_transitions).1,
                    ground arith,
                    present-IsLoaded
                        (asked db (adapter.load_signal_transitions info db.id_transitions).1) path
                        info found trans there,
                    inr (adapter, e, lawful),
                  )
                ]
        | inr fails ↦ (
          [],
          db,
          ground (arith, lawful.failed info db.id_transitions),
          absent-IsLoaded db path info found adapter e missing
              (ground (arith, lawful.failed info db.id_transitions)),
          inr (adapter, e, lawful),
        )
      ]

  -- In a database that is ready, the first read of a known path returns, without throwing; after
  -- it every read of the path returns the same transitions and values and changes nothing, and
  -- the database is ready still.
  pub get_transitions_returns : IsReady db → FirstRead db path info
  unfolding get_transitions
  get_transitions_returns ready =
      elim (Option-cases (Dict.lookup info.signal_id db.id_transitions)) [
        | inr (trans, there) ↦
            (trans, db, ground arith, present-IsLoaded db path info found trans there, ready)
        | inl missing ↦ elim ready [
          | inl eager ↦ absurd (ground (arith, eager (resolve_query_path db path) info found))
          | inr (adapter, e, lawful) ↦ lazy_read adapter e lawful missing
        ]
      ]
