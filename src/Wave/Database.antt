-- ===== src/Wave/Database.antt =====
-- waveform_explorer/src/WaveDatabase.{h,cpp}. A method is an action on the database: the caches
-- change on reads. An action that gives `none` has thrown std::out_of_range (`at` on a missing key).
pub mod Paths
pub mod BaseCache
pub mod Loading
pub mod Paging
use auto_waveform_debugger.Base.{
  ℕ, ◌≡◌, Bool, true, false, ◌&&◌, not, Option, none, some, List, [], ◌∷◌, ◌++◌, Str, codes, str_eq,
  if◌then◌else◌, drop, is_some, is_empty,
}
use auto_waveform_debugger.Base.Text.{starts_with, before_char, has_char}
use auto_waveform_debugger.Base.Dict
use auto_waveform_debugger.Base.Dict.{Dict}
use auto_waveform_debugger.Wave.Signal.{Transition, SignalInfo, FormatAdapter}
use auto_waveform_debugger.Wave.Timeline.{value_at, unknown}
use auto_waveform_debugger.Wave.Registry.{
  Formats, AdapterKind, fst_adapter, create, ends_with_case_insensitive,
}

unfoldable pub strip_top_prefix : Str → Str
strip_top_prefix path = if starts_with (codes "TOP.") path then drop 4 path else path

unfoldable pub strip_bit_suffix : Str → Str
strip_bit_suffix path = before_char b'[' path

pub data BackendKind : Type 0 where
  no_backend vcd fst fsdb : BackendKind

pub record WaveDatabase : Type 0 where
  pub timescale : Str
  pub backend_kind : BackendKind
  pub adapter : Option FormatAdapter
  pub signal_info : Dict SignalInfo
  pub id_transitions : Dict (List Transition)
  pub sorted_signal_paths_cache : List Str
  pub sorted_signal_paths_valid : Bool
  pub base_signal_path_cache : Dict Str
  pub ambiguous_base_signal_paths : List Str

abbrev pub M : Type 0 → Type 0
M A = WaveDatabase → Option (A × WaveDatabase)

infixl 5 ◌>>=◌
abbrev pub ◌>>=◌ : {A B : Type 0} → M A → (A → M B) → M B
◌>>=◌ m f db = elim (m db) [ none ↦ none | some (a, db') ↦ f a db' ]

abbrev pub pure : {A : Type 0} → A → M A
pure a db = some (a, db)

abbrev pub gets : {A : Type 0} → (WaveDatabase → A) → M A
gets f db = some (f db, db)

-- m.at(k)
abbrev pub at : {V : Type 0} → Dict V → Str → M V
at m k db = elim (Dict.lookup k m) [ none ↦ none | some v ↦ some (v, db) ]

-- `clear`, also the state of a new database.
unfoldable pub clear : WaveDatabase
clear = record {
  timescale = [];
  backend_kind = no_backend;
  adapter = none;
  signal_info = [];
  id_transitions = [];
  sorted_signal_paths_cache = [];
  sorted_signal_paths_valid = false;
  base_signal_path_cache = [];
  ambiguous_base_signal_paths = [];
}

unfoldable pub member : Str → List Str → Bool
member k [] = false
member k (j ∷ l) = if str_eq j k then true else member k l

-- One round of the loop of `rebuild_base_signal_path_cache`, over the two caches.
unfoldable pub add_base_path : Str → Dict Str × List Str → Dict Str × List Str
unfolding strip_bit_suffix member
add_base_path path (cache, ambiguous) =
    let base_path = strip_bit_suffix path in
    if str_eq base_path path
    then (cache, ambiguous)
    else if member base_path ambiguous
    then (cache, ambiguous)
    else elim (Dict.lookup base_path cache) [
      | none ↦ (Dict.insert base_path path cache, ambiguous)
      | some old ↦
          if str_eq old path
          then (cache, ambiguous)
          else (Dict.erase base_path cache, base_path ∷ ambiguous)
    ]

unfoldable pub add_base_paths {ℓ} :
    {V : Type ℓ} → List (Str × V) → Dict Str × List Str → Dict Str × List Str
add_base_paths [] caches = caches
add_base_paths ((path, info) ∷ entries) caches = add_base_paths entries (add_base_path path caches)

unfoldable pub rebuild_base_signal_path_cache : WaveDatabase → WaveDatabase
unfolding add_base_paths add_base_path
rebuild_base_signal_path_cache db =
    let (cache, ambiguous) = add_base_paths db.signal_info ([], []) in
    record db { base_signal_path_cache = cache; ambiguous_base_signal_paths = ambiguous }

unfoldable pub backend_of : Str → BackendKind
backend_of filepath =
    if ends_with_case_insensitive filepath (codes ".fst")
    then fst
    else if ends_with_case_insensitive filepath (codes ".fsdb")
    then fsdb
    else vcd

abbrev pub opened : Str → FormatAdapter → WaveDatabase
opened filepath adapter = rebuild_base_signal_path_cache (record clear {
  adapter = some adapter;
  backend_kind = backend_of filepath;
  signal_info = adapter.signal_info;
  id_transitions = adapter.id_transitions;
  timescale = adapter.timescale;
})

-- A file that no adapter takes, or that its adapter cannot read, leaves the database as it was.
unfoldable pub load : Formats → Str → WaveDatabase → Bool × WaveDatabase
unfolding clear rebuild_base_signal_path_cache backend_of
load formats filepath db = elim (create formats.has_fsdb filepath) [
  | none ↦ (false, db)
  | some kind ↦ elim (formats.load kind filepath) [
    | none ↦ (false, db)
    | some adapter ↦ (true, opened filepath adapter)
  ]
]

unfoldable pub resolve_query_path : WaveDatabase → Str → Str
unfolding strip_top_prefix
resolve_query_path db path =
    let no_top = strip_top_prefix path in
    let with_top = codes "TOP." ++ path in
    if Dict.contains path db.signal_info
    then path
    else if Dict.contains no_top db.signal_info
    then no_top
    else if Dict.contains with_top db.signal_info
    then with_top
    else if has_char b'[' path
    then path
    else elim (Dict.lookup no_top db.base_signal_path_cache) [ none ↦ path | some base ↦ base ]

unfoldable pub has_signal : Str → M Bool
has_signal path = gets λ db. Dict.contains (resolve_query_path db path) db.signal_info

unfoldable pub get_signal_info : Str → M SignalInfo
get_signal_info path db = at db.signal_info (resolve_query_path db path) db

unfoldable pub ensure_signal_transitions_loaded : Str → M Bool
ensure_signal_transitions_loaded resolved db = elim (Dict.lookup resolved db.signal_info) [
  | none ↦ some (false, db)
  | some info ↦
      if Dict.contains info.signal_id db.id_transitions then some (true, db) else elim db.adapter [
        | none ↦ some (false, db)
        | some adapter ↦
            let (there, transitions) = adapter.load_signal_transitions info db.id_transitions in
            some (there, record db { id_transitions = transitions })
      ]
]

-- The end of both readers: id_transitions.at(signal_info.at(resolved).signal_id).
unfoldable pub transitions_at : Str → M (List Transition)
transitions_at resolved db = elim (Dict.lookup resolved db.signal_info) [
  | none ↦ none
  | some info ↦ at db.id_transitions info.signal_id db
]

unfoldable pub get_transitions : Str → M (List Transition)
unfolding ensure_signal_transitions_loaded transitions_at
get_transitions path db =
    let resolved = resolve_query_path db path in
    if Dict.contains resolved db.signal_info
    then (do
      loaded ← ensure_signal_transitions_loaded resolved
      if loaded then transitions_at resolved else pure [])
        db
    else some ([], db)

unfoldable pub get_value_at_time : Str → ℕ → M Str
unfolding ensure_signal_transitions_loaded transitions_at
get_value_at_time path time db =
    let resolved = resolve_query_path db path in
    if Dict.contains resolved db.signal_info
    then (do
      loaded ← ensure_signal_transitions_loaded resolved
      if loaded
          then (do trans ← transitions_at resolved; pure (value_at trans time))
          else pure unknown)
        db
    else some (unknown, db)
