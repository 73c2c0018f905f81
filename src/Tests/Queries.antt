-- ===== src/Tests/Queries.antt =====
-- Queries of one signal, lists of signals, and samples, on a small waveform.
use auto_waveform_debugger.Base.{
  Bool, not, is_empty, str_eq, ◌&&◌, ◌||◌, ℕ, ◌≡◌, refl, true, Option, some, List, [], ◌∷◌, Str,
  codes, length, take, ltb, arith,
}
use auto_waveform_debugger.Base.Dict
use auto_waveform_debugger.Wave.Timeline.{value_at, IsSorted}
use auto_waveform_debugger.Wave.Registry.{ends_with_case_insensitive}
use auto_waveform_debugger.Wave.Database.{member, resolve_query_path, strip_top_prefix}
use auto_waveform_debugger.Wave.Database.Loading.{IsLoaded, present-IsLoaded}
use auto_waveform_debugger.Api.Values.{normalize_radix}
use auto_waveform_debugger.Api.Query.{
  vector_query, scalar_query, normalize_query_value_to_bits, value_matches_query,
}
use auto_waveform_debugger.Api.Reply.{success}
use auto_waveform_debugger.Api.Arguments.{null}
use auto_waveform_debugger.Api.Condition.{parse_condition, find_condition}
use auto_waveform_debugger.Api.Condition.Earliest.{IsEarliest, find_condition-IsEarliest}
use auto_waveform_debugger.Api.History.{get_history}
use auto_waveform_debugger.Api.History.Window.{inside, get_history_lem}
use auto_waveform_debugger.Base.Scan.{words}
use auto_waveform_debugger.Api.Dump.Changes.{AreChanges}
use auto_waveform_debugger.Api.Dump.Order.{AreOrdered, count_if, write_dump-AreOrdered}
use auto_waveform_debugger.Api.Dump.{
  DumpTransitionRecord, transitions, write_dump, Sample, sample_loop, sample_fuel,
}
use auto_waveform_debugger.Api.Dump.Samples.{AreEvery, sample_loop_lem}
use auto_waveform_debugger.Api.Signals.{
  Regexes, is_top_module_signal_path, canonical_signal_type, regex_of_chars, glob_to_regex,
  path_matches, supported_types, build_path_matcher, list_signals,
}
use auto_waveform_debugger.Api.Signals.Listed.{any, has_type, list_signals_exact}
use auto_waveform_debugger.Api.Edges.{find_edge}
use auto_waveform_debugger.Api.Edges.First.{is_edge, IsFirst, find_edge_forward}
use auto_waveform_debugger.Api.Intervals.{Interval, find_value_intervals}
use auto_waveform_debugger.Api.Intervals.Exact.{covered, find_value_intervals_exact}
use auto_waveform_debugger.Tests.{clk, bus, clk_changes, bus_changes, file_db}

clk_found :
    Dict.lookup (resolve_query_path file_db (codes "top.clk")) file_db.signal_info ≡ some clk
unfolding resolve_query_path strip_top_prefix Dict.lookup
clk_found = refl

clk-IsLoaded : IsLoaded file_db (codes "top.clk") clk clk_changes
unfolding Dict.lookup
clk-IsLoaded = present-IsLoaded file_db (codes "top.clk") clk clk_found clk_changes refl

clk_in_order : IsSorted clk_changes
clk_in_order = (omega arith, (omega arith, (omega arith, (omega arith, tt))))

find_edge_forward_example :
    (r : Option ℕ) × (find_edge (codes "top.clk") (codes "posedge") 3 (codes "forward") file_db
      ≡ some (success r, file_db))
    × IsFirst (is_edge (codes "posedge") clk_changes) 3 clk_changes r
find_edge_forward_example =
    find_edge_forward (codes "top.clk") (codes "posedge") 3 file_db clk clk_changes clk-IsLoaded
      clk_in_order

query_parsed : normalize_query_value_to_bits (codes "1") 1 (codes "bin") ≡ some (codes "1")
unfolding normalize_query_value_to_bits vector_query scalar_query normalize_radix
query_parsed = refl

find_value_intervals_exact_example :
    (intervals : List Interval) × (find_value_intervals
        (codes "top.clk")
        (codes "1")
        2
        12
        (codes "bin")
        file_db
      ≡ some (success intervals, file_db))
    × (covered 10 intervals ≡ value_matches_query clk (value_at clk_changes 10) (codes "1"))
find_value_intervals_exact_example =
    find_value_intervals_exact (codes "top.clk") (codes "1") (codes "bin") 2 12 file_db clk
      clk_changes (codes "1") 10 clk-IsLoaded clk_in_order (omega arith) (omega arith) query_parsed
      refl

-- Texts that end in "clk", whatever the expression.
abbrev ends_in_clk : Regexes
ends_in_clk = record { compile = λ r. some (λ s. ends_with_case_insensitive s (codes "clk")) }

clk_matcher : Option (Str → Bool)
clk_matcher = ends_in_clk.compile (codes "^.*clk$")

clk_accepted : build_path_matcher ends_in_clk (codes "*clk") ≡ success clk_matcher
unfolding build_path_matcher clk_matcher
clk_accepted = refl

wire_supported : member (canonical_signal_type (codes "Wire")) supported_types ≡ true
unfolding canonical_signal_type member
wire_supported = refl

list_signals_exact_example :
    (signals : List Str) × (list_signals ends_in_clk (codes "*clk") (codes "Wire" ∷ []) file_db
      ≡ some (success signals, file_db))
    × (member (codes "top.clk") signals
        ≡ any
            (λ e.
              str_eq e.1.path (codes "top.clk")
              && ((not (is_empty (codes "*clk")) || is_top_module_signal_path e.1.path)
                  && (path_matches clk_matcher e.1.path && has_type (codes "Wire" ∷ []) e.1)))
            file_db.signal_info)
list_signals_exact_example =
    list_signals_exact ends_in_clk (codes "*clk") (codes "Wire" ∷ []) file_db clk_matcher
      (codes "top.clk") (wire_supported, tt) clk_accepted

glob_run : glob_to_regex (codes "a?[*]") ≡ codes "^a.\\[.*\\]$"
unfolding glob_to_regex regex_of_chars
glob_run = refl

sample_loop_lem_example :
    (samples : List Sample) × (sample_loop
        (sample_fuel 2 12)
        5
        (codes "top.clk" ∷ [])
        (codes "hex")
        12
        2
        file_db
      ≡ some (samples, file_db))
    × AreEvery file_db 5 (codes "top.clk" ∷ []) (codes "hex") 12 2 samples
sample_loop_lem_example =
    sample_loop_lem file_db 5 (codes "top.clk" ∷ []) (codes "hex") 2 12
      ((clk, clk_changes, clk-IsLoaded), tt) (omega arith) (omega arith) (omega arith)

bus_found :
    Dict.lookup (resolve_query_path file_db (codes "top.bus")) file_db.signal_info ≡ some bus
unfolding resolve_query_path strip_top_prefix Dict.lookup
bus_found = refl

bus-IsLoaded : IsLoaded file_db (codes "top.bus") bus bus_changes
unfolding Dict.lookup
bus-IsLoaded = present-IsLoaded file_db (codes "top.bus") bus bus_found bus_changes refl

condition_parsed :
    parse_condition (words (codes "top.bus == b101")) ≡ some (codes "top.bus", codes "b101")
unfolding parse_condition words
condition_parsed = refl

find_condition-IsEarliest_example :
    (r : Option ℕ) × (find_condition (codes "top.bus == b101") 2 (codes "forward") file_db
      ≡ some (success r, file_db))
    × IsEarliest (codes "b101") bus_changes 2 4 r
find_condition-IsEarliest_example =
    find_condition-IsEarliest (codes "top.bus == b101") (codes "top.bus") (codes "b101") 2 4 file_db
      bus bus_changes condition_parsed bus-IsLoaded (omega arith, tt) (omega arith)

get_history_lem_example :
    let found = inside 2 12 clk_changes in
    get_history (codes "top.clk") 2 12 2 file_db
    ≡ some (success (record { history = take 2 found; truncated = ltb 2 (length found) }), file_db)
get_history_lem_example =
    get_history_lem (codes "top.clk") 2 12 2 file_db clk clk_changes clk-IsLoaded clk_in_order
      (omega arith)

-- The records of glitches.
abbrev at_glitch : DumpTransitionRecord → Bool
at_glitch r = r.glitch

write_dump-AreOrdered_example :
    (collected records : List DumpTransitionRecord) × (write_dump
        (codes "top.clk" ∷ codes "top.bus" ∷ [])
        2
        12
        (codes "transitions")
        null
        (codes "hex")
        file_db
      ≡ some (transitions records, file_db))
    × AreChanges file_db 2 12 (codes "top.clk" ∷ codes "top.bus" ∷ []) collected
    × AreOrdered records
    × (count_if at_glitch records ≡ count_if at_glitch collected)
write_dump-AreOrdered_example =
    write_dump-AreOrdered (codes "top.clk" ∷ codes "top.bus" ∷ []) 2 12 null (codes "hex") file_db
      at_glitch
      (
        (clk, clk_changes, clk-IsLoaded, clk_in_order),
        ((bus, bus_changes, bus-IsLoaded, (omega arith, tt)), tt),
      )
