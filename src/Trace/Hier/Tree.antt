-- ===== src/Trace/Hier/Tree.antt =====
-- What a tree of a hierarchy query is to be.
pub mod Build
pub mod Query
use auto_waveform_debugger.Base.{
  ℕ, zero, suc, ◌+◌, ◌≤◌, ◌≡◌, ◌≢◌, refl, false, Option, none, some, List, [], ◌∷◌, ◌++◌, Str,
  codes, arith, Bool-cases, Option-cases, inl, inr, leb,
}
use auto_waveform_debugger.Base.Dict
use auto_waveform_debugger.Wave.Database.{member}
use auto_waveform_debugger.Wave.Database.Paths.{insert_sorted, sort_paths}
use auto_waveform_debugger.Trace.Hier.{
  HierNode, Hierarchy, HierTreeNode, HierTrees, node, nil, cons, Progress, build_children, admit,
  build, keep_child, note_depth, finish_leaf, finish_node, no_progress, HierOptions, run_hier_query,
  unique,
}

unfoldable mutual
  pub size : HierTreeNode → ℕ
  size (node path m f l trees) = suc (size_trees trees)

  pub size_trees : HierTrees → ℕ
  size_trees nil = 0
  size_trees (cons tree trees) = size tree + size_trees trees

-- The tree at `path` has what the hierarchy records. Below it there are at most `levels` levels; the
-- children of a node are among those recorded, in their order; and no node is its own ancestor, nor
-- among the `active`.
mutual
  pub data IsBuilt (db : Hierarchy) : ℕ → List Str → Str → HierTreeNode → Type 0 where
    built :
        {levels : ℕ} {active : List Str} {path : Str} {n : HierNode} {trees : HierTrees}
        → Dict.lookup path db ≡ some n
        → member path active ≡ false
        → AreBuilt db levels (path ∷ active) n.children trees
        → IsBuilt db levels active path (node path n.module_name n.source_file n.source_line trees)

  pub data AreBuilt (db : Hierarchy) : ℕ → List Str → List Str → HierTrees → Type 0 where
    stop : {levels : ℕ} {active children : List Str} → AreBuilt db levels active children nil
    skip :
        {levels : ℕ} {active children : List Str} {child : Str} {trees : HierTrees}
        → AreBuilt db levels active children trees
        → AreBuilt db levels active (child ∷ children) trees
    keep :
        {levels : ℕ} {active children : List Str} {child : Str} {tree : HierTreeNode}
        {trees : HierTrees}
        → IsBuilt db levels active child tree
        → AreBuilt db (suc levels) active children trees
        → AreBuilt db (suc levels) active (child ∷ children) (cons tree trees)

-- The tree at `path` has below each node all children that the hierarchy knows.
mutual
  pub data IsWhole (db : Hierarchy) : Str → HierTreeNode → Type 0 where
    whole :
        {path : Str} {n : HierNode} {trees : HierTrees}
        → Dict.lookup path db ≡ some n
        → AreWhole db n.children trees
        → IsWhole db path (node path n.module_name n.source_file n.source_line trees)

  pub data AreWhole (db : Hierarchy) : List Str → HierTrees → Type 0 where
    end : AreWhole db [] nil
    unknown :
        {children : List Str} {child : Str} {trees : HierTrees}
        → Dict.lookup child db ≡ none
        → AreWhole db children trees
        → AreWhole db (child ∷ children) trees
    known :
        {children : List Str} {child : Str} {tree : HierTreeNode} {trees : HierTrees}
        → IsWhole db child tree
        → AreWhole db children trees
        → AreWhole db (child ∷ children) (cons tree trees)

abbrev pub size_of : Option HierTreeNode → ℕ
size_of none = 0
size_of (some tree) = size tree

abbrev pub IsSound : Hierarchy → HierOptions → Option HierTreeNode → Type 0
IsSound db opts none = Unit
IsSound db opts (some tree) = IsBuilt db opts.depth_limit [] opts.root tree

abbrev pub IsComplete : Hierarchy → Str → Option HierTreeNode → Type 0
IsComplete db root none = Dict.lookup root db ≡ none
IsComplete db root (some tree) = IsWhole db root tree
