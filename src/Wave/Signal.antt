-- ===== src/Wave/Signal.antt =====
-- waveform_explorer/src/FormatAdapter.h: what the format readers hand to the database.
use auto_waveform_debugger.Base.{ℕ, Bool, List, Str}
use auto_waveform_debugger.Base.Dict.{Dict}

-- Times are uint64_t.
pub record Transition : Type 0 where
  pub timestamp : ℕ
  pub value : Str
  pub is_glitch : Bool

pub record SignalInfo : Type 0 where
  pub name : Str
  pub path : Str
  pub width : ℕ
  pub type : Str
  pub signal_id : Str

-- An adapter after a successful `Load`: what `GetTimescale` returns, what `CollectSignals` stores
-- in its two output maps, and `LoadSignalTransitions`, which returns whether the transitions are
-- there and the map with its changes.
pub record FormatAdapter : Type 0 where
  pub timescale : Str
  pub signal_info : Dict SignalInfo
  pub id_transitions : Dict (List Transition)
  pub load_signal_transitions : SignalInfo → Dict (List Transition) → Bool × Dict (List Transition)
