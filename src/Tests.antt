-- ===== src/Tests.antt =====
-- Runs on small waveforms. Their data stands here.
pub mod Trace
pub mod Find
pub mod Query
pub mod Serve
pub mod Records
pub mod Wave
pub mod Api
pub mod Queries
use auto_waveform_debugger.Base.{false, true, none, some, List, [], ◌∷◌, Str, codes}
use auto_waveform_debugger.Wave.Signal.{Transition, SignalInfo, FormatAdapter}
use auto_waveform_debugger.Wave.Database.{WaveDatabase, vcd}

-- A clock with a glitch at 5, and a vector of four bits.
abbrev pub clk : SignalInfo
clk = record {
  name = codes "clk";
  path = codes "top.clk";
  width = 1;
  type = codes "wire";
  signal_id = codes "!";
}

abbrev pub bus : SignalInfo
bus = record {
  name = codes "bus[3:0]";
  path = codes "top.bus[3:0]";
  width = 4;
  type = codes "wire";
  signal_id = codes "%";
}

abbrev pub clk_changes : List Transition
clk_changes =
    record { timestamp = 0; value = codes "0"; is_glitch = false }
    ∷ record { timestamp = 5; value = codes "1"; is_glitch = true }
    ∷ record { timestamp = 5; value = codes "0"; is_glitch = true }
    ∷ record { timestamp = 9; value = codes "1"; is_glitch = false }
    ∷ []

abbrev pub bus_changes : List Transition
bus_changes = record { timestamp = 5; value = codes "b101"; is_glitch = false } ∷ []

abbrev pub file_lines : List Str
file_lines =
    codes "$timescale 1ns $end"
    ∷ codes "$scope module top $end"
    ∷ codes "$var wire 1 ! clk $end"
    ∷ codes "$var wire 4 % bus[3:0] $end"
    ∷ codes "$upscope $end"
    ∷ codes "#0"
    ∷ codes "0!"
    ∷ codes "#5"
    ∷ codes "1!"
    ∷ codes "b101 %"
    ∷ codes "0!"
    ∷ codes "#9"
    ∷ codes "1!"
    ∷ []

abbrev pub file_adapter : FormatAdapter
file_adapter = record {
  timescale = codes "1ns";
  signal_info = (codes "top.clk", clk) ∷ (codes "top.bus[3:0]", bus) ∷ [];
  id_transitions = (codes "!", clk_changes) ∷ (codes "%", bus_changes) ∷ [];
  load_signal_transitions = λ info m. (true, m);
}

abbrev pub file_db : WaveDatabase
file_db = record {
  timescale = codes "1ns";
  backend_kind = vcd;
  adapter = some file_adapter;
  signal_info = file_adapter.signal_info;
  id_transitions = file_adapter.id_transitions;
  sorted_signal_paths_cache = [];
  sorted_signal_paths_valid = false;
  base_signal_path_cache = (codes "top.bus", codes "top.bus[3:0]") ∷ [];
  ambiguous_base_signal_paths = [];
}
