-- ===== src/Trace/Select/RoundTrip.antt =====
-- A signal with selects is read as it was written.
use auto_waveform_debugger.Base.{
  ℕ, zero, suc, ◌≤◌, ◌≡◌, ◌≢◌, refl, ap, ◌∙◌, true, false, some, List, [], ◌∷◌, ◌++◌, Str, is_empty,
  arith, length, length-append, ◌==◌, Bool-cases, inl, inr, All,
}
use auto_waveform_debugger.Base.Text.{has_char}
use mathlib.Core.Path.{subst}
use mathlib.Core.List.{append_assoc, append-nil}
use auto_waveform_debugger.Trace.Number.Integer.{integer_text, same_integer}
use auto_waveform_debugger.Trace.Hier.{leaf_name}
use auto_waveform_debugger.Trace.Select.{
  after_char, Axis, format_bit_range, parse_signed, parse_signed_axis, before_leaf, parse_axes,
  from_bracket, parse_leaf, parse_signal_query,
}
use auto_waveform_debugger.Trace.Select.Bits.{
  IsAxis, is_mark, inside_text, has_char-integer_text, has_char-append, before_char-append,
  after_char-append, format_bit_range_lem, parse_bounds_lem, parse_signed-integer_text,
}

-- The selects, followed by a rest.
unfoldable pub write_axes : List Axis → Str
unfolding format_bit_range
write_axes [] = []
write_axes (axis ∷ axes) = format_bit_range axis ++ write_axes axes

has_char-inside :
    (k : ℕ) (axis : Axis)
    → is_mark k ≡ true
    → (k == b':') ≡ false
    → has_char k (inside_text axis) ≡ false
has_char-inside k (hi, lo) m n = elim (Bool-cases (same_integer hi lo)) [
  | inl same ↦ rw same (has_char-integer_text k hi m)
  | inr other ↦ rw other (
      ground (
        arith,
        has_char-append k (integer_text hi) (b':' ∷ integer_text lo),
        has_char-integer_text k hi m,
        has_char-integer_text k lo m,
      ))
]

pub write_axes_cons :
    (axis : Axis) (axes : List Axis)
    → write_axes (axis ∷ axes) ≡ b'[' ∷ (inside_text axis ++ b']' ∷ write_axes axes)
unfolding write_axes
write_axes_cons axis axes =
    ap (λ t. t ++ write_axes axes) (format_bit_range_lem axis)
    ∙ ap (λ t. b'[' ∷ t) (append_assoc (inside_text axis) (b']' ∷ []) (write_axes axes))

no_axes : write_axes [] ≡ []
unfolding write_axes
no_axes = refl

no_dot : (axes : List Axis) → has_char b'.' (write_axes axes) ≡ false
no_dot [] = unfold write_axes in refl
no_dot (axis ∷ axes) =
    ap (has_char b'.') (write_axes_cons axis axes)
    ∙ has_char-append b'.' (inside_text axis) (b']' ∷ write_axes axes)
    ∙ ground (arith, has_char-inside b'.' axis refl refl, no_dot axes)

parse_axes_step :
    (fuel : ℕ) (axis : Axis) (rest : Str) (axes : List Axis)
    → IsAxis axis
    → parse_axes fuel rest ≡ some axes
    → parse_axes (suc fuel) (b'[' ∷ (inside_text axis ++ b']' ∷ rest)) ≡ some (axis ∷ axes)
unfolding parse_axes
parse_axes_step fuel axis rest axes h k =
    let closed : has_char b']' (inside_text axis) ≡ false = has_char-inside b']' axis refl refl in
    let found : has_char b']' (inside_text axis ++ b']' ∷ rest) ≡ true =
      has_char-append b']' (inside_text axis) (b']' ∷ rest) ∙ rw closed refl in
    let read : parse_signed_axis (inside_text axis) ≡ some axis =
      unfold parse_signed_axis in parse_bounds_lem parse_signed axis parse_signed-integer_text h in
    rw (parse_axes, found)
      (rw
        (
          before_char-append b']' (inside_text axis) rest closed,
          after_char-append b']' (inside_text axis) rest closed,
        )
        (rw (read, k) refl))

parse_axes-write_axes :
    (fuel : ℕ) (axes : List Axis)
    → length axes ≤ fuel
    → All IsAxis axes
    → parse_axes fuel (write_axes axes) ≡ some axes
parse_axes-write_axes fuel [] n h = unfold parse_axes write_axes in refl
parse_axes-write_axes zero (axis ∷ axes) n h = absurd (omega arith)
parse_axes-write_axes (suc fuel) (axis ∷ axes) n h =
    ap (parse_axes (suc fuel)) (write_axes_cons axis axes)
    ∙ parse_axes_step fuel axis (write_axes axes) axes h.0
        (parse_axes-write_axes fuel axes (omega arith) h.1)

length-write_axes : (axes : List Axis) → length axes ≤ length (write_axes axes)
length-write_axes [] = omega arith
length-write_axes (axis ∷ axes) = omega (
  arith,
  ap length (write_axes_cons axis axes),
  length-append {0} (inside_text axis) (b']' ∷ write_axes axes),
  length-write_axes axes,
)

-- The leaf of a path that is followed by a text without a dot.
leaf_name-append : (s t : Str) → has_char b'.' t ≡ false → leaf_name (s ++ t) ≡ leaf_name s ++ t
unfolding leaf_name
leaf_name-append [] [] h = refl
leaf_name-append [] (c ∷ t) h = ground arith
leaf_name-append (c ∷ s) t h = ground (arith, has_char-append b'.' s t, leaf_name-append s t)

before_leaf-append : (s t : Str) → has_char b'.' t ≡ false → before_leaf (s ++ t) ≡ before_leaf s
unfolding before_leaf
before_leaf-append [] [] h = refl
before_leaf-append [] (c ∷ t) h = ground arith
before_leaf-append (c ∷ s) t h = ground (arith, has_char-append b'.' s t, before_leaf-append s t)

whole_path : (s : Str) → before_leaf s ++ leaf_name s ≡ s
unfolding before_leaf leaf_name
whole_path [] = refl
whole_path (c ∷ s) = ground (arith, whole_path s)

from_bracket-append :
    (s t : Str) → has_char b'[' s ≡ false → from_bracket (s ++ b'[' ∷ t) ≡ b'[' ∷ t
unfolding from_bracket
from_bracket-append [] t h = ground arith
from_bracket-append (c ∷ s) t h = ground (arith, from_bracket-append s t)

is_empty-ne : (s : Str) → s ≢ [] → is_empty s ≡ false
is_empty-ne [] h = absurd (h refl)
is_empty-ne (c ∷ s) h = refl

parse_leaf_select :
    (input front leaf rest : Str) (axes : List Axis)
    → leaf ≢ []
    → has_char b'[' leaf ≡ false
    → parse_axes (length (b'[' ∷ rest)) (b'[' ∷ rest) ≡ some axes
    → parse_leaf input front (leaf ++ b'[' ∷ rest) ≡ some (front ++ leaf, axes)
parse_leaf_select input front leaf rest axes named plain read =
    let found : has_char b'[' (leaf ++ b'[' ∷ rest) ≡ true =
      has_char-append b'[' leaf (b'[' ∷ rest) ∙ rw plain refl in
    rw
      (
        found,
        before_char-append b'[' leaf rest plain,
        from_bracket-append leaf rest plain,
        is_empty-ne leaf named,
      )
      (rw read refl)

parse_leaf_plain :
    (input front leaf : Str)
    → has_char b'[' leaf ≡ false
    → has_char b']' leaf ≡ false
    → parse_leaf input front leaf ≡ some (input, [])
parse_leaf_plain input front leaf h k = rw (h, k) refl

-- A signal whose leaf is not empty and has no brackets, followed by printed ranges of 32-bit numbers,
-- is parsed to the signal and the ranges.
pub parse_signal_query-write :
    (base : Str) (axes : List Axis)
    → leaf_name base ≢ []
    → has_char b'[' (leaf_name base) ≡ false
    → has_char b']' (leaf_name base) ≡ false
    → All IsAxis axes
    → parse_signal_query (base ++ write_axes axes) ≡ some (base, axes)
unfolding parse_signal_query
parse_signal_query-write base [] named open_free close_free h =
    ap parse_signal_query (ap (λ t. base ++ t) no_axes ∙ append-nil base)
    ∙ parse_leaf_plain base (before_leaf base) (leaf_name base) open_free close_free
parse_signal_query-write base (axis ∷ axes) named open_free close_free h =
    let written : Str = write_axes (axis ∷ axes) in
    let rest : Str = inside_text axis ++ b']' ∷ write_axes axes in
    let selects : written ≡ b'[' ∷ rest = write_axes_cons axis axes in
    let read : parse_axes (length (b'[' ∷ rest)) (b'[' ∷ rest) ≡ some (axis ∷ axes) =
      subst (λ t. parse_axes (length t) t ≡ some (axis ∷ axes)) selects
        (parse_axes-write_axes (length written) (axis ∷ axes) (length-write_axes (axis ∷ axes))
          h) in
    ap (λ t. parse_leaf (base ++ written) t (leaf_name (base ++ written)))
      (before_leaf-append base written (no_dot (axis ∷ axes)))
    ∙ ap (parse_leaf (base ++ written) (before_leaf base)) (
        leaf_name-append base written (no_dot (axis ∷ axes))
        ∙ ap (λ t. leaf_name base ++ t) selects)
    ∙ parse_leaf_select (base ++ written) (before_leaf base) (leaf_name base) rest (axis ∷ axes)
        named open_free read
    ∙ ap (λ t. some (t, axis ∷ axes)) (whole_path base)

after_char-shorter : (k : ℕ) (s : Str) → length (after_char k s) ≤ length s
unfolding after_char
after_char-shorter k [] = omega arith
after_char-shorter k (c ∷ s) = ground (arith, after_char-shorter k s)

-- The fuel of the loop over the selects is enough: with more of it the result is the same.
parse_axes_fuel :
    (f g : ℕ) (s : Str) → length s ≤ f → length s ≤ g → parse_axes f s ≡ parse_axes g s
unfolding parse_axes
parse_axes_fuel f g [] h k = refl
parse_axes_fuel zero g (c ∷ s) h k = absurd (omega arith)
parse_axes_fuel (suc f) zero (c ∷ s) h k = absurd (omega arith)
parse_axes_fuel (suc f) (suc g) (c ∷ s) h k =
    let shorter = after_char-shorter b']' s in
    rw (parse_axes, parse_axes_fuel f g (after_char b']' s) (omega arith) (omega arith)) refl
