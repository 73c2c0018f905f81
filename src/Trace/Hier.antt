-- ===== src/Trace/Hier.antt =====
-- The hierarchy query: query/HierQuery.cc, and ParentPath of db/GraphDb.cc.
-- The map `hierarchy` of a TraceDb is a dictionary from the path of an instance to its record.
-- The recursion of `build` is on the levels that are left: depth_limit - depth.
pub mod Instance
pub mod Roots
pub mod Tree
use auto_waveform_debugger.Base.{
  ℕ, zero, suc, ◌+◌, Bool, true, false, not, ◌&&◌, ◌||◌, Option, none, some, List, [], ◌∷◌, ◌++◌,
  Str, codes, str_eq, is_empty, if◌then◌else◌, leb, ltb, max, take, ◌==◌,
}
use auto_waveform_debugger.Base.Text.{has_char, str_lt}
use auto_waveform_debugger.Base.Dict
use auto_waveform_debugger.Base.Dict.{Dict}
use auto_waveform_debugger.Wave.Database.{member}
use auto_waveform_debugger.Wave.Database.Paths.{sort_paths}
use auto_waveform_debugger.Trace.Distance.{edit_distance}

pub data InstanceParameterKind : Type 0 where
  value : InstanceParameterKind
  type : InstanceParameterKind

pub record InstanceParameter : Type 0 where
  pub name : Str
  pub value : Str
  pub kind : InstanceParameterKind
  pub is_local : Bool
  pub is_port : Bool
  pub is_overridden : Bool

pub record HierNode : Type 0 where
  pub module_name : Str
  pub source_file : Str
  pub source_line : ℕ
  pub parameters : List InstanceParameter
  pub children : List Str

abbrev pub Hierarchy : Type 0
Hierarchy = Dict HierNode

-- path.substr(0, path.rfind('.')), empty if there is no dot
unfoldable pub parent_path : Str → Str
parent_path [] = []
parent_path (c ∷ s) = if has_char b'.' s then c ∷ parent_path s else []

-- path.substr(path.rfind('.') + 1), the whole path if there is no dot
unfoldable pub leaf_name : Str → Str
leaf_name [] = []
leaf_name (c ∷ s) = if has_char b'.' s then leaf_name s else if c == b'.' then s else c ∷ s

-- An instance without a recorded parent.
unfoldable pub is_root : Hierarchy → Str → Bool
unfolding parent_path Dict.lookup
is_root db path = is_empty (parent_path path) || not (Dict.contains (parent_path path) db)

unfoldable pub root_paths : Hierarchy → Hierarchy → List Str
unfolding is_root
root_paths db [] = []
root_paths db ((path, node) ∷ m) =
    let rest = root_paths db m in if is_root db path then path ∷ rest else rest

-- std::unique on a sorted vector.
unfoldable pub unique : List Str → List Str
unique [] = []
unique (s ∷ []) = s ∷ []
unique (s ∷ t ∷ ss) = let rest = unique (t ∷ ss) in if str_eq s t then rest else s ∷ rest

unfoldable pub hier_roots : Hierarchy → List Str
unfolding root_paths sort_paths unique
hier_roots db = unique (sort_paths (root_paths db db))

mutual
  pub data HierTreeNode : Type 0 where
    node : Str → Str → Str → ℕ → HierTrees → HierTreeNode

  pub data HierTrees : Type 0 where
    nil : HierTrees
    cons : HierTreeNode → HierTrees → HierTrees

-- What the closure `build` shares: the count of nodes, whether the tree is truncated, the stops.
pub record Progress : Type 0 where
  pub node_count : ℕ
  pub truncated : Bool
  pub stops : List Str

abbrev pub add_stop : Str → Str → Progress → Progress
add_stop kind path p = record p { stops = p.stops ++ (kind ++ path) ∷ [] }

abbrev pub keep_child : Option HierTreeNode → HierTrees → HierTrees
keep_child none trees = trees
keep_child (some tree) trees = cons tree trees

-- The loop over the children of `path`; `make` builds one child.
unfoldable pub build_children :
    (Str → Progress → Option HierTreeNode × Progress)
    → ℕ
    → Str
    → List Str
    → Progress
    → HierTrees × Progress
build_children make max_nodes path [] p = (nil, p)
build_children make max_nodes path (child ∷ children) p =
    let stopped : HierTrees × Progress =
      (nil, add_stop (codes "max_nodes@") path (record p { truncated = true })) in
    let (child_node, p1) = make child p in
    let (trees, p2) = build_children make max_nodes path children p1 in
    if leb max_nodes p.node_count then stopped else (keep_child child_node trees, p2)

abbrev pub node_of : Str → HierNode → HierTrees → HierTreeNode
node_of path n trees = node path n.module_name n.source_file n.source_line trees

-- The guards of `build` before a node is made, in their order. `active` holds the paths of the
-- nodes that are being built.
unfoldable pub admit : Hierarchy → ℕ → List Str → Str → Progress → Option HierNode × Progress
unfolding Dict.lookup member
admit db max_nodes active path p =
    if leb max_nodes p.node_count
    then (none, record p { truncated = true })
    else if member path active
    then (none, add_stop (codes "cycle@") path p)
    else elim (Dict.lookup path db) [
      | none ↦ (none, p)
      | some n ↦ (some n, record p { node_count = p.node_count + 1 })
    ]

abbrev pub note_depth : Str → List Str → Progress → Progress
note_depth path [] p = p
note_depth path (child ∷ children) p = add_stop (codes "depth_limit@") path p

-- What is made of an admitted path at the depth limit, and above it.
abbrev pub finish_leaf : Str → Option HierNode × Progress → Option HierTreeNode × Progress
finish_leaf path (none, p) = (none, p)
finish_leaf path (some n, p) = (some (node_of path n nil), note_depth path n.children p)

abbrev pub finish_node :
    (Str → Progress → Option HierTreeNode × Progress)
    → ℕ
    → Str
    → Option HierNode × Progress
    → Option HierTreeNode × Progress
finish_node make max_nodes path (none, p) = (none, p)
finish_node make max_nodes path (some n, p) =
    let (trees, p') = build_children make max_nodes path n.children p in
    (some (node_of path n trees), p')

unfoldable pub build :
    Hierarchy → ℕ → ℕ → List Str → Str → Progress → Option HierTreeNode × Progress
unfolding admit build_children
build db max_nodes zero active path p = finish_leaf path (admit db max_nodes active path p)
build db max_nodes (suc levels) active path p =
    finish_node (build db max_nodes levels (path ∷ active)) max_nodes path
      (admit db max_nodes active path p)

pub record HierRunResult : Type 0 where
  pub root : Str
  pub depth_limit : ℕ
  pub node_count : ℕ
  pub truncated : Bool
  pub stops : List Str
  pub tree : Option HierTreeNode

pub data OutputFormat : Type 0 where
  text : OutputFormat
  json : OutputFormat

pub record HierOptions : Type 0 where
  pub root : Str
  pub depth_limit : ℕ
  pub max_nodes : ℕ
  pub format : OutputFormat
  pub show_source : Bool

abbrev pub no_progress : Progress
no_progress = record { node_count = 0; truncated = false; stops = [] }

unfoldable pub run_hier_query : Hierarchy → HierOptions → HierRunResult
unfolding build sort_paths unique
run_hier_query db opts =
    let (tree, p) = build db opts.max_nodes opts.depth_limit [] opts.root no_progress in
    if is_empty db
    then record {
      root = opts.root;
      depth_limit = opts.depth_limit;
      node_count = 0;
      truncated = false;
      stops = codes "empty-hierarchy" ∷ [];
      tree = none;
    }
    else record {
      root = opts.root;
      depth_limit = opts.depth_limit;
      node_count = p.node_count;
      truncated = p.truncated;
      stops = unique (sort_paths p.stops);
      tree = tree;
    }

-- TopHierarchySuggestions: the paths by their distance to the text, then by name; one at least.
unfoldable pub insert_scored : ℕ × Str → List (ℕ × Str) → List (ℕ × Str)
insert_scored (n, s) [] = (n, s) ∷ []
insert_scored (n, s) ((m, t) ∷ ts) =
    if ltb m n || (m == n && str_lt t s)
    then (m, t) ∷ insert_scored (n, s) ts
    else (n, s) ∷ (m, t) ∷ ts

unfoldable pub sort_scored : List (ℕ × Str) → List (ℕ × Str)
unfolding insert_scored
sort_scored [] = []
sort_scored (p ∷ ps) = insert_scored p (sort_scored ps)

unfoldable pub scored : Str → Hierarchy → List (ℕ × Str)
unfolding edit_distance
scored needle [] = []
scored needle ((name, n) ∷ m) = (edit_distance name needle, name) ∷ scored needle m

unfoldable pub names : List (ℕ × Str) → List Str
names [] = []
names ((n, s) ∷ ps) = s ∷ names ps

unfoldable pub top_hierarchy_suggestions : Hierarchy → Str → ℕ → List Str
unfolding scored sort_scored names
top_hierarchy_suggestions db needle limit =
    take (max 1 limit) (names (sort_scored (scored needle db)))

-- RunHierWithSession on a session whose hierarchy is loaded, up to the printing of the result.
pub data HierReply : Type 0 where
  no_hierarchy : HierReply
  no_roots : HierReply
  root_not_found : Str → List Str → HierReply
  found : HierRunResult → HierReply

abbrev pub hier_status : HierReply → ℕ
hier_status no_hierarchy = 1
hier_status no_roots = 1
hier_status (root_not_found root suggestions) = 2
hier_status (found result) = 0

unfoldable pub run_from_root : Hierarchy → HierOptions → HierReply
unfolding run_hier_query top_hierarchy_suggestions Dict.lookup
run_from_root db opts =
    if Dict.contains opts.root db
    then found (run_hier_query db opts)
    else root_not_found opts.root (top_hierarchy_suggestions db opts.root 5)

abbrev pub from_first : Hierarchy → HierOptions → List Str → HierReply
from_first db opts [] = no_roots
from_first db opts (root ∷ roots) = run_from_root db (record opts { root = root })

unfoldable pub run_hier_with_session : Hierarchy → HierOptions → HierReply
unfolding hier_roots run_from_root
run_hier_with_session db opts =
    if is_empty db
    then no_hierarchy
    else if is_empty opts.root
    then from_first db opts (hier_roots db)
    else run_from_root db opts
