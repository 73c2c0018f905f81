-- ===== src/Trace/Query/Resolve/RoundTrip.antt =====
-- A stored name with printed selects behind it is resolved to the name and the selects.
use auto_waveform_debugger.Base.{
  ◌<◌, ◌≡◌, refl, sym, true, false, none, some, List, [], ◌∷◌, ◌++◌, Str, codes, is_some, length,
  arith, All,
}
use auto_waveform_debugger.Trace.Hier.{leaf_name}
use auto_waveform_debugger.Trace.Select.{Axis}
use auto_waveform_debugger.Trace.Select.Bits.{IsAxis}
use auto_waveform_debugger.Trace.Select.RoundTrip.{
  write_axes, write_axes_cons, parse_signal_query-write,
}
use auto_waveform_debugger.Trace.Query.Resolve.{
  lookup_signal_id, split_at_bracket, resolve_signal_query,
}
use auto_waveform_debugger.Trace.Query.Resolve.Longest.{resolve_signal_query_lem}

longer_front :
    (p q s t : Str)
    → p ++ b'[' ∷ s ≡ q ++ b'[' ∷ t
    → length p < length q
    → (u : Str) × (q ≡ p ++ b'[' ∷ u)
longer_front [] [] s t e l = absurd (omega arith)
longer_front [] (d ∷ q) s t e l = let same : b'[' ≡ d = cc in (q, rw (sym same) refl)
longer_front (c ∷ p) [] s t e l = absurd (omega arith)
longer_front (c ∷ p) (d ∷ q) s t e l =
    let (u, f) = longer_front p q s t (cc) (omega arith) in
    let same : c ≡ d = cc in (u, rw (same, f) refl)

no_selects :
    (names : List Str) (root suffix : Str)
    → is_some (lookup_signal_id names root) ≡ false
    → split_at_bracket names root suffix ≡ none
unfolding split_at_bracket
no_selects names root suffix h = rw h refl

selects_read :
    (names : List Str) (root : Str) (axis : Axis) (axes : List Axis)
    → is_some (lookup_signal_id names root) ≡ true
    → All IsAxis (axis ∷ axes)
    → split_at_bracket names root (write_axes (axis ∷ axes)) ≡ some (root, axis ∷ axes)
unfolding split_at_bracket leaf_name
selects_read names root axis axes stored h =
    rw (stored, parse_signal_query-write (codes "signal") (axis ∷ axes) (λ e. cc) refl refl h) refl

-- A stored name, whatever characters it has, with printed selects behind it is resolved to the name
-- and the selects, if no name is stored that begins with the name and an opening bracket.
pub resolve_signal_query-write :
    (names : List Str) (root : Str) (axis : Axis) (axes : List Axis)
    → is_some (lookup_signal_id names root) ≡ true
    → ((t : Str) → is_some (lookup_signal_id names (root ++ b'[' ∷ t)) ≡ false)
    → All IsAxis (axis ∷ axes)
    → resolve_signal_query names (root ++ write_axes (axis ∷ axes)) ≡ some (root, axis ∷ axes)
resolve_signal_query-write names root axis axes stored alone h =
    let written = write_axes_cons axis axes in
    let read = selects_read names root axis axes stored h in
    rw written (
      (resolve_signal_query_lem names (root ++ b'[' ∷ _)).1 (alone _) (root, axis ∷ axes)
        (
          root,
          _,
          refl,
          rw written at read,
          λ q t e l.
              let (u, f) = longer_front root q _ t e l in
              no_selects names q (b'[' ∷ t) (rw f (alone u)),
        ))
