-- ===== src/Trace/Hier/Tree/Query.antt =====
-- The tree of a hierarchy query, and when it is whole.
use auto_waveform_debugger.Base.{
  ◌≤◌, ◌≡◌, ◌≢◌, refl, false, Option, none, some, List, [], ◌∷◌, Str, arith,
}
use auto_waveform_debugger.Wave.Database.Paths.{insert_sorted, sort_paths}
use auto_waveform_debugger.Trace.Hier.{
  Hierarchy, HierTreeNode, Progress, no_progress, HierOptions, run_hier_query, unique,
}
use auto_waveform_debugger.Trace.Hier.Tree.{size_of, IsSound, IsComplete}
use auto_waveform_debugger.Trace.Hier.Tree.Build.{IsQuiet, Made, build_lem}

Made-IsSound :
    (db : Hierarchy) (opts : HierOptions) (made : Option HierTreeNode) (p : Progress)
    → Made db opts.max_nodes opts.depth_limit [] opts.root no_progress made p
    → (p.node_count ≡ size_of made) × (p.node_count ≤ opts.max_nodes) × IsSound db opts made
Made-IsSound db opts none p h = (omega (arith, h.0.counted), h.0.bounded (omega arith), tt)
Made-IsSound db opts (some tree) p h = (omega (arith, h.0.counted), h.0.bounded (omega arith), h.1)

-- The tree of a query has what the hierarchy records, with the children of a node among those that
-- are recorded, in their order; no node is its own ancestor, and none is deeper than the depth limit.
-- The count of nodes is that of the tree, and no more than the limit on nodes.
pub run_hier_query-IsSound :
    (db : Hierarchy) (opts : HierOptions)
    → let result = run_hier_query db opts in
      (result.node_count ≡ size_of result.tree)
      × (result.node_count ≤ opts.max_nodes)
      × IsSound db opts result.tree
unfolding run_hier_query
run_hier_query-IsSound [] opts = (omega arith, omega arith, tt)
run_hier_query-IsSound (entry ∷ m) opts =
    let db : Hierarchy = entry ∷ m in
    Made-IsSound db opts _ _ (build_lem db opts.max_nodes opts.depth_limit [] opts.root no_progress)

insert_sorted-ne-nil : (s : Str) (ts : List Str) → insert_sorted s ts ≢ []
unfolding insert_sorted
insert_sorted-ne-nil s [] h = cc
insert_sorted-ne-nil s (t ∷ ts) h = ground arith

unique-ne-nil : (s : Str) (ts : List Str) → unique (s ∷ ts) ≢ []
unfolding unique
unique-ne-nil s [] h = cc
unique-ne-nil s (t ∷ ts) h = ground (arith, unique-ne-nil t ts)

unique-eq-nil : (ts : List Str) → unique ts ≡ [] → ts ≡ []
unique-eq-nil [] h = refl
unique-eq-nil (t ∷ ts) h = absurd (unique-ne-nil t ts h)

sort_paths-eq-nil : (ts : List Str) → sort_paths ts ≡ [] → ts ≡ []
unfolding sort_paths
sort_paths-eq-nil [] h = refl
sort_paths-eq-nil (t ∷ ts) h = absurd (insert_sorted-ne-nil t (sort_paths ts) h)

Made-IsComplete :
    (db : Hierarchy) (opts : HierOptions) (made : Option HierTreeNode) (p : Progress)
    → Made db opts.max_nodes opts.depth_limit [] opts.root no_progress made p
    → IsQuiet p
    → IsComplete db opts.root made
Made-IsComplete db opts none p h q = h.1 q
Made-IsComplete db opts (some tree) p h q = h.2 q

-- If a query reports no truncation and no stop, its tree is whole: below each node are, in order, all
-- its recorded children that the hierarchy knows, and there is no tree only if the hierarchy does not
-- know the root.
pub run_hier_query-IsComplete :
    (db : Hierarchy) (opts : HierOptions)
    → (run_hier_query db opts).truncated ≡ false
    → (run_hier_query db opts).stops ≡ []
    → IsComplete db opts.root (run_hier_query db opts).tree
unfolding run_hier_query
run_hier_query-IsComplete [] opts untruncated quiet = cc
run_hier_query-IsComplete (entry ∷ m) opts untruncated quiet =
    let db : Hierarchy = entry ∷ m in
    Made-IsComplete db opts _ _
      (build_lem db opts.max_nodes opts.depth_limit [] opts.root no_progress)
      (untruncated, sort_paths-eq-nil _ (unique-eq-nil _ quiet))
