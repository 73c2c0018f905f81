-- ===== src/Tests/Trace.antt =====
-- Runs of the tracer's queries and of its command line.
use auto_waveform_debugger.Base.{ℕ, ◌≤◌, ◌≡◌, refl, false, none, some, List, [], ◌∷◌, Str, codes}
use auto_waveform_debugger.Trace.Number.{parse_unsigned_cli_value}
use auto_waveform_debugger.Trace.Distance.{edit_distance, bounded_edit_distance}
use auto_waveform_debugger.Trace.Distance.Levenshtein.{Script, edit_distance-IsLeast}
use auto_waveform_debugger.Trace.Hier.{
  HierNode, Hierarchy, HierTreeNode, node, nil, cons, text, json, HierOptions, is_root, hier_roots,
  run_hier_query,
}
use auto_waveform_debugger.Trace.Hier.Tree.{size_of, IsSound, IsComplete}
use auto_waveform_debugger.Trace.Hier.Tree.Query.{run_hier_query-IsSound, run_hier_query-IsComplete}
use auto_waveform_debugger.Trace.Cli.{ok, parse_hier_args, parse_output_format}
use auto_waveform_debugger.Trace.Cli.RoundTrip.Hier

edit_distance_run : edit_distance (codes "kitten") (codes "sitting") ≡ 3
unfolding edit_distance
edit_distance_run = refl

edit_distance-IsLeast_example :
    Script (codes "kitten") (codes "sitting") (edit_distance (codes "kitten") (codes "sitting"))
    × ((n : ℕ)
        → Script (codes "kitten") (codes "sitting") n
        → edit_distance (codes "kitten") (codes "sitting") ≤ n)
edit_distance-IsLeast_example = edit_distance-IsLeast (codes "kitten") (codes "sitting")

bounded_edit_distance_run : bounded_edit_distance (codes "kitten") (codes "sitting") 1 ≡ 2
unfolding bounded_edit_distance
bounded_edit_distance_run = refl

abbrev pub leaf : Str → List Str → HierNode
leaf name children = record {
  module_name = name;
  source_file = [];
  source_line = 0;
  parameters = [];
  children = children;
}

abbrev pub design : Hierarchy
design =
    (codes "top", leaf (codes "soc") (codes "top.cpu" ∷ codes "top.gone" ∷ codes "top.ram" ∷ []))
    ∷ (codes "top.cpu", leaf (codes "cpu") (codes "top.cpu.alu" ∷ []))
    ∷ (codes "top.ram", leaf (codes "ram") [])
    ∷ (codes "top.cpu.alu", leaf (codes "alu") [])
    ∷ []

abbrev deep : HierOptions
deep = record {
  root = codes "top";
  depth_limit = 8;
  max_nodes = 5000;
  format = text;
  show_source = false;
}

abbrev whole_tree : HierTreeNode
whole_tree = node (codes "top") (codes "soc") [] 0 (
    cons
      (node (codes "top.cpu") (codes "cpu") [] 0
        (cons (node (codes "top.cpu.alu") (codes "alu") [] 0 nil) nil))
      (cons (node (codes "top.ram") (codes "ram") [] 0 nil) nil))

tree_run : (run_hier_query design deep).tree ≡ some whole_tree
unfolding run_hier_query
tree_run = refl

stops_run :
    (run_hier_query design (record deep { depth_limit = 1 })).stops
    ≡ codes "depth_limit@top.cpu" ∷ []
unfolding run_hier_query
stops_run = refl

run_hier_query-IsSound_example :
    let result = run_hier_query design deep in
    (result.node_count ≡ size_of result.tree)
    × (result.node_count ≤ 5000)
    × IsSound design deep result.tree
run_hier_query-IsSound_example = run_hier_query-IsSound design deep

untruncated : (run_hier_query design deep).truncated ≡ false
unfolding run_hier_query
untruncated = refl

unstopped : (run_hier_query design deep).stops ≡ []
unfolding run_hier_query
unstopped = refl

run_hier_query-IsComplete_example :
    IsComplete design (codes "top") (run_hier_query design deep).tree
run_hier_query-IsComplete_example = run_hier_query-IsComplete design deep untruncated unstopped

hier_roots_run : hier_roots design ≡ codes "top" ∷ []
unfolding hier_roots is_root
hier_roots_run = refl

three : parse_unsigned_cli_value (codes "3") ≡ some 3
unfolding parse_unsigned_cli_value
three = refl

negative_number : parse_unsigned_cli_value (codes "-1") ≡ some 18446744073709551615
unfolding parse_unsigned_cli_value
negative_number = refl

as_json : parse_output_format (codes "JSON") ≡ some json
unfolding parse_output_format
as_json = refl

abbrev settings : List (Hier.Setting false)
settings =
    Hier.depth (codes "3") 3 three
    ∷ Hier.root (codes "top")
    ∷ Hier.format (codes "JSON") json as_json
    ∷ Hier.show_source
    ∷ Hier.root (codes "top.cpu")
    ∷ []

parse_hier_args-write_example :
    parse_hier_args (Hier.write settings []) false none false
    ≡ ok (Hier.apply_all settings (Hier.before false none))
parse_hier_args-write_example = Hier.parse_hier_args-write false none false settings refl
