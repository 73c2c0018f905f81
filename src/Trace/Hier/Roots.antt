-- ===== src/Trace/Hier/Roots.antt =====
-- The roots of the hierarchy: HierRoots of query/HierQuery.cc.
use auto_waveform_debugger.Base.{
  ◌≡◌, ◌≢◌, refl, ◌∙◌, false, ◌&&◌, List, [], ◌∷◌, Str, str_eq, str_eq_iff, arith, All, Bool-cases,
  inl, inr,
}
use auto_waveform_debugger.Base.Text.{str_lt}
use auto_waveform_debugger.Wave.Database.{member}
use auto_waveform_debugger.Wave.Database.Paths.{keys}
use auto_waveform_debugger.Wave.Database.Paths.Order.{Ascending, AreDistinct, sort_paths-Ascending}
use auto_waveform_debugger.Api.Signals.Listed.{member-sort_paths}
use auto_waveform_debugger.Trace.Hier.{Hierarchy, is_root, root_paths, unique, hier_roots}

str_lt_irrefl : (s : Str) → str_lt s s ≡ false
str_lt_irrefl [] = refl
str_lt_irrefl (c ∷ s) = ground (arith, str_lt_irrefl s)

-- In an ascending list no two neighbours are equal.
unique-Ascending : (ss : List Str) → Ascending ss → unique ss ≡ ss
unfolding unique
unique-Ascending [] h = refl
unique-Ascending (s ∷ []) h = refl
unique-Ascending (s ∷ t ∷ ss) h =
    ground (arith, unique-Ascending (t ∷ ss) h.1, h.0.0, str_eq_iff s t, str_lt_irrefl s)

All-root_paths :
    (db : Hierarchy) (x : Str) (m : Hierarchy)
    → All (λ y. x ≢ y) (keys m)
    → All (λ y. x ≢ y) (root_paths db m)
unfolding keys root_paths
All-root_paths db x [] h = tt
All-root_paths db x ((path, n) ∷ m) h = elim (Bool-cases (is_root db path)) [
  | inl root ↦ rw root (h.0, All-root_paths db x m h.1)
  | inr inner ↦ rw inner (All-root_paths db x m h.1)
]

root_paths-AreDistinct : (db m : Hierarchy) → AreDistinct (keys m) → AreDistinct (root_paths db m)
unfolding keys root_paths
root_paths-AreDistinct db [] h = tt
root_paths-AreDistinct db ((path, n) ∷ m) h = elim (Bool-cases (is_root db path)) [
  | inl root ↦ rw root (All-root_paths db path m h.0, root_paths-AreDistinct db m h.1)
  | inr inner ↦ rw inner (root_paths-AreDistinct db m h.1)
]

member-root_paths :
    (p : Str) (db m : Hierarchy) → member p (root_paths db m) ≡ (member p (keys m) && is_root db p)
unfolding member keys root_paths
member-root_paths p db [] = refl
member-root_paths p db ((path, n) ∷ m) = elim (Bool-cases (str_eq path p)) [
  | inl same ↦ ground (arith, str_eq_iff path p, member-root_paths p db m)
  | inr other ↦ ground (arith, member-root_paths p db m)
]

-- For a hierarchy that records each path once, the roots are in ascending order, and a path is among
-- them exactly if it is recorded and its parent path is empty or is not recorded.
pub hier_roots_lem :
    (db : Hierarchy)
    → AreDistinct (keys db)
    → Ascending (hier_roots db)
      × ((p : Str) → member p (hier_roots db) ≡ (member p (keys db) && is_root db p))
unfolding hier_roots
hier_roots_lem db h =
    let ordered = sort_paths-Ascending (root_paths db db) (root_paths-AreDistinct db db h) in
    rw (unique-Ascending _ ordered)
      (ordered, λ p. member-sort_paths p (root_paths db db) ∙ member-root_paths p db db)
