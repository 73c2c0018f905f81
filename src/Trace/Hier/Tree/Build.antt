-- ===== src/Trace/Hier/Tree/Build.antt =====
-- What the recursion of a hierarchy query builds, and what it reports.
use auto_waveform_debugger.Base.{
  ℕ, zero, suc, ◌+◌, ◌≤◌, ◌≡◌, ◌≢◌, refl, false, Option, none, some, List, [], ◌∷◌, ◌++◌, Str,
  codes, arith, Bool-cases, Option-cases, inl, inr, leb,
}
use auto_waveform_debugger.Base.Dict
use auto_waveform_debugger.Wave.Database.{member}
use auto_waveform_debugger.Trace.Hier.{
  HierNode, Hierarchy, HierTreeNode, HierTrees, node, nil, Progress, build_children, admit, build,
  keep_child, note_depth, finish_leaf, finish_node,
}
use auto_waveform_debugger.Trace.Hier.Tree.{
  size, size_trees, IsBuilt, built, AreBuilt, stop, skip, keep, IsWhole, whole, AreWhole, end,
  unknown, known,
}

-- How the shared progress changes while `made` nodes are made.
pub record Grows (max_nodes made : ℕ) (p p' : Progress) : Type 0 where
  pub counted : p'.node_count ≡ p.node_count + made
  pub bounded : p.node_count ≤ max_nodes → p'.node_count ≤ max_nodes
  pub untruncated : p'.truncated ≡ false → p.truncated ≡ false
  pub unstopped : p'.stops ≡ [] → p.stops ≡ []

abbrev pub IsQuiet : Progress → Type 0
IsQuiet p = (p.truncated ≡ false) × (p.stops ≡ [])

Grows-trans :
    {max_nodes a b c : ℕ} {p q r : Progress}
    → c ≡ a + b
    → Grows max_nodes a p q
    → Grows max_nodes b q r
    → Grows max_nodes c p r
Grows-trans e g h = record {
  counted = omega (arith, g.counted, h.counted);
  bounded = λ k. h.bounded (g.bounded k);
  untruncated = λ k. g.untruncated (h.untruncated k);
  unstopped = λ k. g.unstopped (h.unstopped k);
}

append-ne-nil : (ss : List Str) (s : Str) → (ss ++ s ∷ []) ≢ []
append-ne-nil [] s h = cc
append-ne-nil (t ∷ ss) s h = cc

abbrev pub Admitted :
    Hierarchy → ℕ → List Str → Str → Progress → Option HierNode → Progress → Type 0
Admitted db max_nodes active path p none p' =
    Grows max_nodes 0 p p' × (IsQuiet p' → Dict.lookup path db ≡ none)
Admitted db max_nodes active path p (some n) p' =
    Grows max_nodes 1 p p' × (Dict.lookup path db ≡ some n) × (member path active ≡ false)

admit_lem :
    (db : Hierarchy) (max_nodes : ℕ) (active : List Str) (path : Str) (p : Progress)
    → let (found, p') = admit db max_nodes active path p in
      Admitted db max_nodes active path p found p'
unfolding admit
admit_lem db max_nodes active path p = elim (Bool-cases (leb max_nodes p.node_count)) [
  | inl full ↦ rw full (ground arith, λ q. cc)
  | inr room ↦ elim (Bool-cases (member path active)) [
    | inl cyclic ↦
        rw (room, cyclic)
          (
            ground (arith, append-ne-nil p.stops (codes "cycle@" ++ path)),
            λ q. absurd (append-ne-nil p.stops _ q.1),
          )
    | inr fresh ↦ elim (Option-cases (Dict.lookup path db)) [
      | inl absent ↦ rw (room, fresh, absent) (ground arith, λ q. absent)
      | inr (n, found) ↦ rw (room, fresh, found) (ground arith, found, fresh)
    ]
  ]
]

abbrev pub Made :
    Hierarchy → ℕ → ℕ → List Str → Str → Progress → Option HierTreeNode → Progress → Type 0
Made db max_nodes levels active path p none p' =
    Grows max_nodes 0 p p' × (IsQuiet p' → Dict.lookup path db ≡ none)
Made db max_nodes levels active path p (some tree) p' =
    Grows max_nodes (size tree) p p'
    × IsBuilt db levels active path tree
    × (IsQuiet p' → IsWhole db path tree)

abbrev pub MadeAll :
    Hierarchy → ℕ → ℕ → List Str → List Str → Progress → HierTrees → Progress → Type 0
MadeAll db max_nodes levels active children p trees p' =
    Grows max_nodes (size_trees trees) p p'
    × AreBuilt db levels active children trees
    × (IsQuiet p' → AreWhole db children trees)

IsQuiet-before :
    {max_nodes made : ℕ} {p p' : Progress} → Grows max_nodes made p p' → IsQuiet p' → IsQuiet p
IsQuiet-before g q = (g.untruncated q.0, g.unstopped q.1)

-- One child, and the children behind it.
add_child :
    (db : Hierarchy) (max_nodes levels : ℕ) (active : List Str) (child : Str) (children : List Str)
    (p p1 p2 : Progress) (made : Option HierTreeNode) (trees : HierTrees)
    → Made db max_nodes levels active child p made p1
    → MadeAll db max_nodes (suc levels) active children p1 trees p2
    → MadeAll db max_nodes (suc levels) active (child ∷ children) p (keep_child made trees) p2
unfolding size
add_child db max_nodes levels active child children p p1 p2 none trees h k =
    (Grows-trans (omega arith) h.0 k.0, skip k.1, λ q. unknown (h.1 (IsQuiet-before k.0 q)) (k.2 q))
add_child db max_nodes levels active child children p p1 p2 (some tree) trees h k =
    (Grows-trans refl h.0 k.0, keep h.1 k.1, λ q. known (h.2 (IsQuiet-before k.0 q)) (k.2 q))

module _ (db : Hierarchy) (max_nodes levels : ℕ) (active : List Str) (path : Str)
    (make : Str → Progress → Option HierTreeNode × Progress)
    (made : (child : Str) (p : Progress)
      → Made db max_nodes levels active child p (make child p).0 (make child p).1) where
  build_children_lem :
      (children : List Str) (p : Progress)
      → let (trees, p') = build_children make max_nodes path children p in
        MadeAll db max_nodes (suc levels) active children p trees p'
  unfolding build_children size
  build_children_lem [] p = (ground arith, stop, λ q. end)
  build_children_lem (child ∷ children) p = elim (Bool-cases (leb max_nodes p.node_count)) [
    | inl full ↦
        rw full
          (ground (arith, append-ne-nil p.stops (codes "max_nodes@" ++ path)), stop, λ q. cc (q.0))
    | inr room ↦ rw room (
        add_child db max_nodes levels active child children p _ _ _ _ (made child p)
          (build_children_lem children (make child p).1))
  ]

-- A node whose children are `trees`.
add_node :
    (db : Hierarchy) (max_nodes levels : ℕ) (active : List Str) (path : Str) (n : HierNode)
    (p p1 p2 : Progress) (trees : HierTrees)
    → Admitted db max_nodes active path p (some n) p1
    → MadeAll db max_nodes levels (path ∷ active) n.children p1 trees p2
    → Made db max_nodes levels active path p
        (some (node path n.module_name n.source_file n.source_line trees))
        p2
unfolding size
add_node db max_nodes levels active path n p p1 p2 trees h k =
    (Grows-trans (omega arith) h.0 k.0, built h.1 h.2 k.1, λ q. whole h.1 (k.2 q))

note_depth_lem :
    (db : Hierarchy) (max_nodes levels : ℕ) (active : List Str) (path : Str) (children : List Str)
    (p : Progress)
    → MadeAll db max_nodes levels active children p nil (note_depth path children p)
unfolding size
note_depth_lem db max_nodes levels active path [] p = (ground arith, stop, λ q. end)
note_depth_lem db max_nodes levels active path (child ∷ children) p = (
  ground (arith, append-ne-nil p.stops (codes "depth_limit@" ++ path)),
  stop,
  λ q. absurd (append-ne-nil p.stops _ q.1),
)

finish_leaf_lem :
    (db : Hierarchy) (max_nodes : ℕ) (active : List Str) (path : Str) (p : Progress)
    (found : Option HierNode × Progress)
    → Admitted db max_nodes active path p found.0 found.1
    → let (made, p') = finish_leaf path found in Made db max_nodes 0 active path p made p'
finish_leaf_lem db max_nodes active path p (none, p1) h = h
finish_leaf_lem db max_nodes active path p (some n, p1) h =
    add_node db max_nodes 0 active path n p p1 _ nil h
      (note_depth_lem db max_nodes 0 (path ∷ active) path n.children p1)

finish_node_lem :
    (db : Hierarchy) (max_nodes levels : ℕ) (active : List Str) (path : Str) (p : Progress)
    (make : Str → Progress → Option HierTreeNode × Progress) (found : Option HierNode × Progress)
    → ((child : Str) (q : Progress)
        → Made db max_nodes levels (path ∷ active) child q (make child q).0 (make child q).1)
    → Admitted db max_nodes active path p found.0 found.1
    → let (made, p') = finish_node make max_nodes path found in
      Made db max_nodes (suc levels) active path p made p'
finish_node_lem db max_nodes levels active path p make (none, p1) made h = h
finish_node_lem db max_nodes levels active path p make (some n, p1) made h =
    add_node db max_nodes (suc levels) active path n p p1 _ _ h
      (build_children_lem db max_nodes levels (path ∷ active) path make made n.children p1)

pub build_lem :
    (db : Hierarchy) (max_nodes levels : ℕ) (active : List Str) (path : Str) (p : Progress)
    → let (made, p') = build db max_nodes levels active path p in
      Made db max_nodes levels active path p made p'
unfolding build
build_lem db max_nodes zero active path p =
    finish_leaf_lem db max_nodes active path p (admit db max_nodes active path p)
      (admit_lem db max_nodes active path p)
build_lem db max_nodes (suc levels) active path p =
    finish_node_lem db max_nodes levels active path p (build db max_nodes levels (path ∷ active))
      (admit db max_nodes active path p) (build_lem db max_nodes levels (path ∷ active))
      (admit_lem db max_nodes active path p)
