-- ===== src/Tests/Wave.antt =====
-- Runs of the VCD reader and of the waveform database.
use auto_waveform_debugger.Base.{
  ◌≤◌, ◌≡◌, ◌↔◌, refl, true, false, none, some, codes, take, length, ltb, arith,
}
use auto_waveform_debugger.Base.Dict
use auto_waveform_debugger.Base.Dict.{Dict}
use auto_waveform_debugger.Base.Scan.{words, stoull}
use auto_waveform_debugger.Wave.Timeline.{value_at, until_upper, unknown}
use auto_waveform_debugger.Wave.Timeline.Replay.{replay, value_at-eq-replay}
use auto_waveform_debugger.Wave.Registry.{Formats, vcd_adapter, create, ends_with_case_insensitive}
use auto_waveform_debugger.Wave.Database.{
  WaveDatabase, clear, strip_top_prefix, strip_bit_suffix, member, add_base_path, add_base_paths,
  rebuild_base_signal_path_cache, opened, load, resolve_query_path,
}
use auto_waveform_debugger.Wave.Database.BaseCache.{
  variants, AreOnly, lookup-rebuild_base_signal_path_cache,
}
use auto_waveform_debugger.Wave.Database.Loading.{FirstRead}
use auto_waveform_debugger.Wave.Database.Paths.{Page, sort_paths, keys, list_signal_paths_page}
use auto_waveform_debugger.Wave.Database.Paths.Order.{Ascending}
use auto_waveform_debugger.Wave.Database.Paging.{
  IsCacheSound, wanted, page_limit, list_signal_paths_page_lem, select,
}
use auto_waveform_debugger.Wave.Vcd.{
  start, trim_id, collect_timescale, scope_path, pop_scope, declare_var, read_keyword, mark_last,
  change_value, read_change, read_line, step, read_lines, load_vcd,
}
use auto_waveform_debugger.Wave.Vcd.Induction.{Advances}
use auto_waveform_debugger.Wave.Vcd.Glitches.{AreMarked, load_vcd-AreMarked}
use auto_waveform_debugger.Wave.Vcd.Identifiers.{load-vcd_returns}
use auto_waveform_debugger.Wave.Vcd.Times.{load_vcd-IsSorted}
use auto_waveform_debugger.Wave.Timeline.{IsSorted}
use auto_waveform_debugger.Tests.{bus, clk_changes, file_lines, file_adapter, file_db}

clk_changes-IsSorted : IsSorted clk_changes
clk_changes-IsSorted = (omega arith, (omega arith, (omega arith, (omega arith, tt))))

value_at-eq-replay_example : value_at clk_changes 7 ≡ replay 7 unknown clk_changes
value_at-eq-replay_example = value_at-eq-replay clk_changes 7 clk_changes-IsSorted

value_at_run : value_at clk_changes 5 ≡ codes "0"
unfolding value_at until_upper
value_at_run = refl

load_vcd_run : load_vcd file_lines ≡ some file_adapter
unfolding load_vcd read_lines step read_line read_change change_value mark_last read_keyword
    declare_var pop_scope scope_path collect_timescale trim_id strip_top_prefix Dict.lookup
    Dict.insert stoull words
load_vcd_run = refl

load_vcd-AreMarked_example : AreMarked none clk_changes
unfolding Dict.lookup
load_vcd-AreMarked_example =
    load_vcd-AreMarked file_lines file_adapter (codes "!") clk_changes load_vcd_run refl

file-Advances : Advances ◌≤◌ start file_lines
unfolding Advances step read_line read_change change_value mark_last read_keyword declare_var
    pop_scope scope_path collect_timescale trim_id strip_top_prefix Dict.lookup Dict.insert stoull
    words
file-Advances = (
  omega arith,
  (
    omega arith,
    (
      omega arith,
      (
        omega arith,
        (
          omega arith,
          (
            omega arith,
            (
              omega arith,
              (
                omega arith,
                (omega arith, (omega arith, (omega arith, (omega arith, (omega arith, tt))))),
              ),
            ),
          ),
        ),
      ),
    ),
  ),
)

load_vcd-IsSorted_example : IsSorted clk_changes
unfolding Dict.lookup
load_vcd-IsSorted_example =
    load_vcd-IsSorted file_lines file_adapter (codes "!") clk_changes file-Advances load_vcd_run
      refl

abbrev formats : Formats
formats = record { has_fsdb = false; load = λ kind path. load_vcd file_lines }

chosen : create false (codes "a.vcd") ≡ some vcd_adapter
unfolding create ends_with_case_insensitive
chosen = refl

load_found :
    Dict.lookup
      (resolve_query_path (opened (codes "a.vcd") file_adapter) (codes "TOP.top.bus"))
      (opened (codes "a.vcd") file_adapter).signal_info
    ≡ some bus
unfolding resolve_query_path strip_top_prefix rebuild_base_signal_path_cache add_base_paths
    add_base_path member strip_bit_suffix Dict.lookup Dict.insert
load_found = refl

load_run : load formats (codes "a.vcd") clear ≡ (true, opened (codes "a.vcd") file_adapter)
unfolding load
load_run = rw (chosen, load, load_vcd_run) refl

found_after_load :
    let db = (load formats (codes "a.vcd") clear).1 in
    Dict.lookup (resolve_query_path db (codes "TOP.top.bus")) db.signal_info ≡ some bus
found_after_load = rw load_run load_found

load-vcd_returns_example :
    ((load formats (codes "a.vcd") clear).0 ≡ true)
    × FirstRead (load formats (codes "a.vcd") clear).1 (codes "TOP.top.bus") bus
load-vcd_returns_example =
    load-vcd_returns formats (codes "a.vcd") clear file_lines file_adapter (codes "TOP.top.bus") bus
      chosen refl load_vcd_run found_after_load

lookup-rebuild_base_signal_path_cache_example :
    (Dict.lookup (codes "top.bus") (rebuild_base_signal_path_cache file_db).base_signal_path_cache
      ≡ some (codes "top.bus[3:0]"))
    ↔ AreOnly (codes "top.bus[3:0]") (variants (codes "top.bus") file_db.signal_info)
lookup-rebuild_base_signal_path_cache_example =
    lookup-rebuild_base_signal_path_cache file_db (codes "top.bus") (codes "top.bus[3:0]")

file_db-IsCacheSound : IsCacheSound file_db
file_db-IsCacheSound e = absurd cc

list_signal_paths_page_lem_example :
    let found =
      select
        (wanted (codes "top.") (codes "top.bus[3:0]"))
        (sort_paths (keys file_db.signal_info)) in
    (p : Page) × (db' : WaveDatabase) × (list_signal_paths_page
        (codes "top.")
        (codes "top.bus[3:0]")
        1
        file_db
      ≡ some (p, db'))
    × (p.page ≡ take (page_limit 1) found)
    × (p.has_more ≡ ltb (page_limit 1) (length found))
    × IsCacheSound db'
    × Ascending db'.sorted_signal_paths_cache
unfolding keys
list_signal_paths_page_lem_example =
    list_signal_paths_page_lem (codes "top.") (codes "top.bus[3:0]") 1 file_db file_db-IsCacheSound
      (((λ e. cc), tt), (tt, tt))
