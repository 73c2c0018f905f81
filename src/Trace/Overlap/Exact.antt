-- ===== src/Trace/Overlap/Exact.antt =====
-- A select keeps an endpoint exactly where they share coordinates.
use auto_waveform_debugger.Base.{
  ℕ, zero, suc, ◌+◌, ◌≡◌, ◌↔◌, refl, sym, ◌∙◌, true, false, Option, none, some, List, [], ◌∷◌, Str,
  is_empty, get_elem?, if◌then◌else◌, arith, Bool-cases, Option-cases, inl, inr, ◌-◌, ◌≤◌, ◌<◌,
  ◌==◌, length, ap,
}
use auto_waveform_debugger.Trace.Number.Integer.{ℤ}
use auto_waveform_debugger.Trace.Endpoint.{EndpointRecord}
use auto_waveform_debugger.Trace.Select.{Axis}
use auto_waveform_debugger.Trace.Overlap.{
  leb_ℤ, min_ℤ, max_ℤ, ranges_overlap, axes_overlap, is_port, parse_endpoint_axes, close_axis,
  endpoint_axes, endpoint_matches_signal_axes,
}

-- A coordinate of a range, whichever end comes first.
abbrev pub IsIn : ℤ → Axis → Type 0
IsIn z (a, b) = (leb_ℤ (min_ℤ a b) z ≡ true) × (leb_ℤ z (max_ℤ a b) ≡ true)

abbrev pub ShareCoordinate : Axis → Axis → Type 0
ShareCoordinate a b = (z : ℤ) × IsIn z a × IsIn z b

leb_trans : (a b c : ℤ) → leb_ℤ a b ≡ true → leb_ℤ b c ≡ true → leb_ℤ a c ≡ true
leb_trans a b c h k = ground arith

max_least : (a b z : ℤ) → leb_ℤ a z ≡ true → leb_ℤ b z ≡ true → leb_ℤ (max_ℤ a b) z ≡ true
max_least a b z h k = ground arith

min_greatest : (a b z : ℤ) → leb_ℤ z a ≡ true → leb_ℤ z b ≡ true → leb_ℤ z (min_ℤ a b) ≡ true
min_greatest a b z h k = ground arith

max_above : (a b : ℤ) → (leb_ℤ a (max_ℤ a b) ≡ true) × (leb_ℤ b (max_ℤ a b) ≡ true)
max_above a b = ground arith

min_below : (a b : ℤ) → (leb_ℤ (min_ℤ a b) a ≡ true) × (leb_ℤ (min_ℤ a b) b ≡ true)
min_below a b = ground arith

ranges_overlap-ShareCoordinate : (a b : Axis) → (ranges_overlap a b ≡ true) ↔ ShareCoordinate a b
unfolding ranges_overlap
ranges_overlap-ShareCoordinate (a, b) (c, d) =
    let lo : ℤ = max_ℤ (min_ℤ a b) (min_ℤ c d) in
    let hi : ℤ = min_ℤ (max_ℤ a b) (max_ℤ c d) in
    let above = max_above (min_ℤ a b) (min_ℤ c d) in
    let below = min_below (max_ℤ a b) (max_ℤ c d) in
    (
      λ h. (
        lo,
        (above.0, leb_trans lo hi (max_ℤ a b) h below.0),
        (above.1, leb_trans lo hi (max_ℤ c d) h below.1),
      ),
      λ s.
          leb_trans lo s.0 hi (max_least (min_ℤ a b) (min_ℤ c d) s.0 s.1.0 s.2.0)
            (min_greatest (max_ℤ a b) (max_ℤ c d) s.0 s.1.1 s.2.1),
    )

-- Where both have an axis that is known, the axes share a coordinate.
abbrev pub AllShare : List Axis → List (Option Axis) → Type 0
AllShare axes known =
    (k : ℕ) (a b : Axis)
    → get_elem? axes k ≡ some a
    → get_elem? known k ≡ some (some b)
    → ShareCoordinate a b

axes_overlap_sound :
    (axes : List Axis) (known : List (Option Axis))
    → axes_overlap axes known ≡ true
    → AllShare axes known
unfolding axes_overlap
axes_overlap_sound [] known h k a b e f = cc
axes_overlap_sound (axis ∷ axes) [] h k a b e f = cc
axes_overlap_sound (axis ∷ axes) (none ∷ others) h zero a b e f = cc
axes_overlap_sound (axis ∷ axes) (none ∷ others) h (suc k) a b e f =
    axes_overlap_sound axes others h k a b e f
axes_overlap_sound (axis ∷ axes) (some b' ∷ others) h zero a b e f =
    (ranges_overlap-ShareCoordinate a b).0 (ground (arith, h, e, f))
axes_overlap_sound (axis ∷ axes) (some b' ∷ others) h (suc k) a b e f =
    axes_overlap_sound axes others (ground arith) k a b e f

axes_overlap_complete :
    (axes : List Axis) (known : List (Option Axis))
    → AllShare axes known
    → axes_overlap axes known ≡ true
unfolding axes_overlap
axes_overlap_complete [] known h = refl
axes_overlap_complete (axis ∷ axes) [] h = refl
axes_overlap_complete (axis ∷ axes) (none ∷ others) h =
    axes_overlap_complete axes others (λ k. h (suc k))
axes_overlap_complete (axis ∷ axes) (some b ∷ others) h =
    let first = (ranges_overlap-ShareCoordinate axis b).1 (h 0 axis b refl refl) in
    rw first (axes_overlap_complete axes others (λ k. h (suc k)))

matches_parsed :
    (e : EndpointRecord) (axes : List Axis) (known : List (Option Axis))
    → is_port e.kind ≡ false
    → e.bit_map_logical_axes ≡ true
    → is_empty e.bit_map ≡ false
    → is_empty axes ≡ false
    → parse_endpoint_axes e.bit_map ≡ some known
    → endpoint_matches_signal_axes e axes ≡ axes_overlap axes known
unfolding endpoint_matches_signal_axes
matches_parsed e axes known no_port logical mapped selected parsed =
    rw (endpoint_matches_signal_axes, no_port, logical, mapped, selected, parsed) refl

-- An endpoint that is no port and whose bit map has logical axes is kept by a query with selects
-- exactly if each select shares a coordinate with the axis at its place, where the endpoint has one
-- that is known.
pub endpoint_matches_signal_axes-AllShare :
    (e : EndpointRecord) (axes : List Axis) (known : List (Option Axis))
    → is_port e.kind ≡ false
    → e.bit_map_logical_axes ≡ true
    → is_empty e.bit_map ≡ false
    → is_empty axes ≡ false
    → parse_endpoint_axes e.bit_map ≡ some known
    → (endpoint_matches_signal_axes e axes ≡ true) ↔ AllShare axes known
endpoint_matches_signal_axes-AllShare e axes known no_port logical mapped selected parsed =
    let same : endpoint_matches_signal_axes e axes ≡ axes_overlap axes known =
      matches_parsed e axes known no_port logical mapped selected parsed in
    (
      λ h. axes_overlap_sound axes known (sym same ∙ h),
      λ h. same ∙ axes_overlap_complete axes known h,
    )

close_axis-shorter :
    (depth : ℕ) (s inside rest : Str)
    → close_axis depth s ≡ some (inside, rest)
    → length rest < length s
unfolding close_axis
close_axis-shorter depth [] inside rest h = cc
close_axis-shorter depth (c ∷ s) inside rest h =
    let depth' : ℕ = if c == b'[' then depth + 1 else if c == b']' then depth - 1 else depth in
    elim (Bool-cases (depth' == 0)) [
      | inl closed ↦
          let same : s ≡ rest = cc (rw (close_axis, closed) at h) in omega (arith, ap length same)
      | inr nested ↦ elim (Option-cases (close_axis depth' s)) [
        | inl unclosed ↦ cc (rw (close_axis, nested, unclosed) at h)
        | inr ((first, others), found) ↦
            let same : others ≡ rest = cc (rw (close_axis, nested, found) at h) in
            omega (arith, ap length same, close_axis-shorter depth' s first others found)
      ]
    ]

-- The fuel of the loop over the axes is enough: with more of it the result is the same.
endpoint_axes_fuel :
    (f g : ℕ) (s : Str) → length s ≤ f → length s ≤ g → endpoint_axes f s ≡ endpoint_axes g s
unfolding endpoint_axes
endpoint_axes_fuel f g [] h k = refl
endpoint_axes_fuel zero g (c ∷ s) h k = absurd (omega arith)
endpoint_axes_fuel (suc f) zero (c ∷ s) h k = absurd (omega arith)
endpoint_axes_fuel (suc f) (suc g) (c ∷ s) h k = elim (Option-cases (close_axis 1 s)) [
  | inl unclosed ↦ rw (endpoint_axes, unclosed) refl
  | inr ((inside, rest), found) ↦
      let shorter = close_axis-shorter 1 s inside rest found in
      rw (endpoint_axes, found) (rw (endpoint_axes_fuel f g rest (omega arith) (omega arith)) refl)
]
