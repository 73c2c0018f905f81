-- ===== src/Wave/Vcd/Identifiers.antt =====
-- A signal that VcdAdapter.cpp declares has a list of transitions: the database's reads of a VCD
-- file cannot throw.
use auto_waveform_debugger.Base.{
  ℕ, ◌≡◌, refl, true, some, List, [], Str, arith, if◌then◌else◌, Option-cases, inl, inr,
  str_eq_refl,
}
use auto_waveform_debugger.Base.Dict
use auto_waveform_debugger.Base.Dict.{Dict}
use auto_waveform_debugger.Wave.Signal.{Transition, SignalInfo, FormatAdapter}
use auto_waveform_debugger.Wave.Database.{WaveDatabase, load, resolve_query_path}
use auto_waveform_debugger.Wave.Database.Loading.{
  IsEager, IsReady, FirstRead, get_transitions_returns,
}
use auto_waveform_debugger.Wave.Registry.{Formats, create, vcd_adapter}
use auto_waveform_debugger.Wave.Vcd.{Reader, start, change_value, declare_var, read_lines, load_vcd}
use auto_waveform_debugger.Wave.Vcd.Induction.{IsSame, read_lines_keeps, Advances-always}

-- A record, so that an induction can name it.
record IsDeclared (r : Reader) : Type 0 where
  eager : IsEager r.signal_info r.id_transitions

same-IsDeclared : (r r' : Reader) → IsSame r r' → IsDeclared r → IsDeclared r'
same-IsDeclared r r' s h = record {
  eager = λ path info e. rw (s.lists) (h.eager path info (rw (s.infos) at e));
}

timed-IsDeclared :
    (r : Reader) (time : ℕ)
    → Unit {0}
    → IsDeclared r
    → IsDeclared (record r { current_time = time })
timed-IsDeclared r time ok h = record { eager = h.eager }

-- A change puts the list back under its identifier.
change_value-IsDeclared :
    (r : Reader) (id value : Str) → IsDeclared r → IsDeclared (change_value r id value)
unfolding change_value
change_value-IsDeclared r id value h = elim (Option-cases (Dict.lookup id r.id_transitions)) [
  | inl e ↦ rw (e, change_value) h
  | inr (trans, e) ↦
      rw (e, change_value)
        (record {
          eager = λ path info f. rw Dict.lookup-insert (ground (arith, h.eager path info f));
        })
]

insert-IsEager :
    (infos : Dict SignalInfo) (m : Dict (List Transition)) (path : Str) (info : SignalInfo)
    → IsEager infos m
    → IsEager
        (Dict.insert path info infos)
        (if Dict.contains info.signal_id m then m else Dict.insert info.signal_id [] m)
insert-IsEager infos m path info h q found e = ground (
  arith,
  h q found,
  Dict.lookup-insert path q info infos,
  Dict.lookup-insert info.signal_id found.signal_id [] m,
  str_eq_refl info.signal_id,
)

declare_var-IsDeclared : (r : Reader) (ws : List Str) → IsDeclared r → IsDeclared (declare_var r ws)
unfolding declare_var
declare_var-IsDeclared r ws h = record {
  eager = insert-IsEager r.signal_info r.id_transitions _ _ h.eager;
}

start-IsDeclared : IsDeclared start
unfolding Dict.lookup
start-IsDeclared = record { eager = λ path info e. cc }

load_vcd-IsEager :
    (lines : List Str) (adapter : FormatAdapter)
    → load_vcd lines ≡ some adapter
    → IsEager adapter.signal_info adapter.id_transitions
unfolding load_vcd
load_vcd-IsEager lines adapter e = elim (Option-cases (read_lines start lines)) [
  | inl failed ↦ absurd (ground arith)
  | inr (r, done) ↦
      let h =
        read_lines_keeps IsDeclared (λ _ _. Unit) same-IsDeclared timed-IsDeclared
          declare_var-IsDeclared change_value-IsDeclared start lines (Advances-always start lines)
          start-IsDeclared done in
      λ path info f. ground (arith, h.eager path info)
]

-- After a VCD file has been loaded, whatever was loaded before, every path that is found can be
-- read: the first read returns without throwing, and the reads after it return the same and change
-- nothing.
pub load-vcd_returns :
    (formats : Formats) (filepath : Str) (db : WaveDatabase) (lines : List Str)
    (adapter : FormatAdapter) (path : Str) (info : SignalInfo)
    → create formats.has_fsdb filepath ≡ some vcd_adapter
    → formats.load vcd_adapter filepath ≡ load_vcd lines
    → load_vcd lines ≡ some adapter
    → let db' = (load formats filepath db).1 in
      Dict.lookup (resolve_query_path db' path) db'.signal_info ≡ some info
      → ((load formats filepath db).0 ≡ true) × FirstRead db' path info
unfolding load
load-vcd_returns formats filepath db lines adapter path info chosen reads parsed found = (
  rw (chosen, load, reads, parsed) refl,
  get_transitions_returns (load formats filepath db).1 path info found ready,
)
  where
    ready : IsReady (load formats filepath db).1
    ready = rw (chosen, load, reads, parsed) (inl (load_vcd-IsEager lines adapter parsed))
