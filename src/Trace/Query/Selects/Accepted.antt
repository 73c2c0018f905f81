-- ===== src/Trace/Query/Selects/Accepted.antt =====
-- What holds of the selects with which the traversal is entered.
use native.Mathlib.Decide.{dec_lt}
use auto_waveform_debugger.Base.{
  ℕ, ◌+◌, ◌≤◌, ◌<◌, ◌≡◌, ◌≢◌, refl, sym, ap, ◌∙◌, Bool, true, false, not, ◌&&◌, ◌||◌, none, some,
  List, [], ◌∷◌, Str, is_some, is_empty, length, ltb, arith, All, Bool-cases, inl, inr,
}
use auto_waveform_debugger.Trace.Number.Integer.{ℤ, pos}
use auto_waveform_debugger.Trace.Overlap.{pos_part, neg_part, leb_ℤ, min_ℤ, max_ℤ}
use auto_waveform_debugger.Trace.Select.{Axis}
use auto_waveform_debugger.Trace.Query.{
  DeclaredAxis, SignalCoordinates, has_flag, axis_fixed, TraceOptions,
}
use auto_waveform_debugger.Trace.Query.Selects.{
  SignalView, coordinate_packed_outer, coordinate_unsupported, declared_of, Failure, then_check,
  fail_if, multi_axis_evidence, is_legacy, check_legacy, is_outside, check_bounds, check_ambiguous,
  check_declared, check_undeclared, check_member, check_several, check_axes, check_selects,
  accepted, checked, warned, encoding_of, check_query,
}

abbrev pub LeqInt : ℤ → ℤ → Type 0
LeqInt a b = pos_part a + neg_part b ≤ pos_part b + neg_part a

-- Both ends of a select lie between the bounds of an axis, in either order.
abbrev pub Within : DeclaredAxis → Axis → Type 0
Within declared (first, second) =
    LeqInt (min_ℤ declared.left declared.right) first
    × LeqInt (min_ℤ declared.left declared.right) second
    × LeqInt first (max_ℤ declared.left declared.right)
    × LeqInt second (max_ℤ declared.left declared.right)

-- There is an axis for each select, and a select of a fixed axis lies within it.
abbrev pub AreWithin : List DeclaredAxis → List Axis → Type 0
AreWithin axes [] = Unit
AreWithin [] (select ∷ selects) = ⊥
AreWithin (declared ∷ axes) (select ∷ selects) =
    (has_flag axis_fixed declared.flags ≡ true → Within declared select) × AreWithin axes selects

then_check-none : (f g : Failure) → then_check f g ≡ none → (f ≡ none) × (g ≡ none)
then_check-none none g h = (refl, h)
then_check-none (some f) g h = cc

fail_if-none : (b : Bool) (code message : Str) → fail_if b code message ≡ none → b ≡ false
fail_if-none true code message h = cc
fail_if-none false code message h = refl

le_min : (l a b : ℤ) → leb_ℤ l (min_ℤ a b) ≡ true → LeqInt l a × LeqInt l b
le_min l a b h = elim (Bool-cases (leb_ℤ a b)) [
  | inl y ↦ let k : leb_ℤ l a ≡ true = rw y at h in ground arith
  | inr n ↦ let k : leb_ℤ l b ≡ true = rw n at h in ground arith
]

max_le : (g a b : ℤ) → leb_ℤ (max_ℤ a b) g ≡ true → LeqInt a g × LeqInt b g
max_le g a b h = elim (Bool-cases (leb_ℤ a b)) [
  | inl y ↦ let k : leb_ℤ b g ≡ true = rw y at h in ground arith
  | inr n ↦ let k : leb_ℤ a g ≡ true = rw n at h in ground arith
]

neither : (a b : Bool) → (not a || not b) ≡ false → (a ≡ true) × (b ≡ true)
neither true true h = (refl, refl)
neither true false h = cc
neither false b h = cc

fixed_outside : (f o : Bool) → (f && o) ≡ false → f ≡ true → o ≡ false
fixed_outside true o h e = h
fixed_outside false o h e = cc

is_outside-Within :
    (declared : DeclaredAxis) (select : Axis)
    → is_outside declared select ≡ false
    → has_flag axis_fixed declared.flags ≡ true
    → Within declared select
is_outside-Within declared (first, second) h fixed =
    let (low, high) = neither _ _ (fixed_outside (has_flag axis_fixed declared.flags) _ h fixed) in
    let (a, b) = le_min (min_ℤ declared.left declared.right) first second low in
    let (c, d) = max_le (max_ℤ declared.left declared.right) first second high in (a, b, c, d)

check_bounds-AreWithin :
    (hint : Str) (axis : ℕ) (axes : List DeclaredAxis) (selects : List Axis)
    → length selects ≤ length axes
    → check_bounds hint axis axes selects ≡ none
    → AreWithin axes selects
unfolding check_bounds
check_bounds-AreWithin hint axis axes [] l h = tt
check_bounds-AreWithin hint axis [] (select ∷ selects) l h = omega arith
check_bounds-AreWithin hint axis (declared ∷ axes) (select ∷ selects) l h =
    let (first, others) = then_check-none _ _ h in
    (
      is_outside-Within declared select (fail_if-none _ _ _ first),
      check_bounds-AreWithin hint (axis + 1) axes selects (omega arith) others,
    )

-- The bits of a member, counted from its place in the parent.
abbrev pub WithinMember : SignalView → Axis → Type 0
WithinMember view (first, second) =
    LeqInt (pos 0) first
    × LeqInt (pos 0) second
    × (pos_part first < view.member_bit_width)
    × (pos_part second < view.member_bit_width)

-- What the traversal relies on, for a query with selects.
pub record Accepts (view : SignalView) (selects : List Axis) : Type 0 where
  pub legacy :
      is_legacy view ≡ true
      → (length selects ≤ 1)
        × (multi_axis_evidence view.drivers ≡ false)
        × (multi_axis_evidence view.loads ≡ false)
  pub declared :
      (c : SignalCoordinates)
      → is_legacy view ≡ false
      → view.coordinates ≡ some c
      → AreWithin (declared_of view) selects
        × (has_flag coordinate_unsupported c.flags ≡ false)
        × (length selects ≡ 1 → 1 < c.axis_count → has_flag coordinate_packed_outer c.flags ≡ false)
  pub undeclared :
      is_legacy view ≡ false
      → view.coordinates ≡ none
      → (length selects ≤ 1) × (view.is_member ≡ true → All (WithinMember view) selects)
  pub several : 1 < length selects → (view.is_member ≡ false) × (view.is_global ≡ false)

legacy_lem :
    (view : SignalView) (selects : List Axis)
    → check_legacy view selects ≡ none
    → (length selects ≤ 1)
      × (multi_axis_evidence view.drivers ≡ false)
      × (multi_axis_evidence view.loads ≡ false)
unfolding check_legacy
legacy_lem view selects h = let k = fail_if-none _ _ _ h in ground arith

several_lem :
    (root : Str) (view : SignalView) (selects : List Axis)
    → check_several root view selects ≡ none
    → 1 < length selects
    → (view.is_member ≡ false) × (view.is_global ≡ false)
unfolding check_several
several_lem root view selects h l =
    let many : ltb 1 (length selects) ≡ true = ground arith in
    let (f, g) = then_check-none _ _ (rw many at h) in (fail_if-none _ _ _ f, fail_if-none _ _ _ g)

ambiguous_lem :
    (hint root : Str) (member : Bool) (c : SignalCoordinates) (axes : List DeclaredAxis)
    (selects : List Axis)
    → check_ambiguous hint root member c axes selects ≡ none
    → length selects ≡ 1
    → 1 < c.axis_count
    → has_flag coordinate_packed_outer c.flags ≡ false
unfolding check_ambiguous
ambiguous_lem hint root member c axes [] h l m = absurd (omega arith)
ambiguous_lem hint root member c axes (s ∷ []) h l m = let k = fail_if-none _ _ _ h in ground arith
ambiguous_lem hint root member c axes (s ∷ t ∷ selects) h l m = absurd (omega arith)

declared_lem :
    (root : Str) (view : SignalView) (c : SignalCoordinates) (selects : List Axis)
    → check_declared root view c selects ≡ none
    → AreWithin (declared_of view) selects
      × (has_flag coordinate_unsupported c.flags ≡ false)
      × (length selects ≡ 1 → 1 < c.axis_count → has_flag coordinate_packed_outer c.flags ≡ false)
unfolding check_declared
declared_lem root view c selects h =
    let (supported, h1) = then_check-none _ _ h in
    let (enough, h2) = then_check-none _ _ h1 in
    let (within, alone) = then_check-none _ _ h2 in
    let few = fail_if-none _ _ _ enough in
    (
      check_bounds-AreWithin _ 0 (declared_of view) selects (ground arith) within,
      fail_if-none _ _ _ supported,
      ambiguous_lem _ root view.is_member c (declared_of view) selects alone,
    )

neither_or : (a b : Bool) → (not a || b) ≡ false → (a ≡ true) × (b ≡ false)
neither_or true b h = (refl, h)
neither_or false b h = cc

below_max :
    (a b : ℤ) (n : ℕ)
    → leb_ℤ (pos n) (max_ℤ a b) ≡ false
    → LeqInt (pos 0) a
    → LeqInt (pos 0) b
    → (pos_part a < n) × (pos_part b < n)
below_max a b n h p q = elim (Bool-cases (leb_ℤ a b)) [
  | inl y ↦ let k : leb_ℤ (pos n) b ≡ false = rw y at h in ground arith
  | inr m ↦ let k : leb_ℤ (pos n) a ≡ false = rw m at h in ground arith
]

member_lem :
    (view : SignalView) (selects : List Axis)
    → check_member view selects ≡ none
    → view.coordinates ≡ none
    → length selects ≤ 1
    → view.is_member ≡ true
    → All (WithinMember view) selects
unfolding check_member
member_lem view [] h e l m = tt
member_lem view ((first, second) ∷ []) h e l m =
    let inside : (view.is_member && not (is_some view.coordinates)) ≡ true = ground arith in
    let (bounds, _) = then_check-none _ _ (rw inside at h) in
    let (low, high) = neither_or _ _ (fail_if-none _ _ _ bounds) in
    let (a, b) = le_min (pos 0) first second low in
    let (c, d) = below_max first second view.member_bit_width high a b in ((a, b, c, d), tt)
member_lem view (s ∷ t ∷ selects) h e l m = absurd (omega arith)

undeclared_lem :
    (root : Str) (view : SignalView) (selects : List Axis)
    → check_undeclared view selects ≡ none
    → check_several root view selects ≡ none
    → length selects ≤ 1
unfolding check_undeclared
undeclared_lem root view selects h k = elim (dec_lt 1 (length selects)) [
  | no few ↦ omega arith
  | yes many ↦
      let (other, _) = several_lem root view selects k many in
      let refusal = fail_if-none _ _ _ h in ground arith
]

check_axes-Accepts :
    (root : Str) (view : SignalView) (selects : List Axis)
    → check_axes root view selects ≡ none
    → check_member view selects ≡ none
    → check_several root view selects ≡ none
    → Accepts view selects
check_axes-Accepts root view selects axes member several = record {
  legacy = λ old. legacy_lem view selects (rw old at axes);
  declared = λ c new e. declared_lem root view c selects (rw (new, e) at axes);
  undeclared = λ new e.
      let few = undeclared_lem root view selects (rw (new, e) at axes) several in
      (few, member_lem view selects member e few);
  several = several_lem root view selects several;
}

check_selects-Accepts :
    (root : Str) (view : SignalView) (selects : List Axis)
    → selects ≢ []
    → check_selects root view selects ≡ none
    → Accepts view selects
unfolding check_selects
check_selects-Accepts root view [] some_select h = absurd (some_select refl)
check_selects-Accepts root view (s ∷ selects) some_select h =
    let (axes, h1) = then_check-none _ _ h in
    let (member, several) = then_check-none _ _ h1 in
    check_axes-Accepts root view (s ∷ selects) axes member several

checked-accepted :
    (opts opts' : TraceOptions) (f : Failure)
    → checked opts f ≡ accepted opts'
    → (f ≡ none) × (opts ≡ opts')
checked-accepted opts opts' none h = (refl, cc)
checked-accepted opts opts' (some f) h = cc

-- A query with selects reaches the traversal only with selects that the signal has: without
-- declarations of their axes, a single select and no endpoint that shows several axes; with
-- declared axes, no more selects than axes, each within its axis where that has fixed bounds, and
-- no single select on several packed axes; for a member of a struct that has no axes of its own,
-- bits of the member; and several selects only for a signal that is neither a member nor a global
-- net.
pub check_query-Accepts :
    (view : SignalView) (parsed opts : TraceOptions)
    → parsed.signal_select_axes ≢ []
    → check_query view parsed ≡ accepted opts
    → Accepts view parsed.signal_select_axes
unfolding check_query
check_query-Accepts view parsed opts some_select h =
    let (passed, _) = checked-accepted _ opts _ h in
    check_selects-Accepts parsed.root_signal view parsed.signal_select_axes some_select passed

warned_fields :
    (view : SignalView) (opts : TraceOptions)
    → ((warned view opts).root_signal ≡ opts.root_signal)
      × ((warned view opts).signal_select_axes ≡ opts.signal_select_axes)
warned_fields view opts =
    elim (Bool-cases (not (is_empty opts.signal_select_axes) && is_legacy view)) [
      | inl y ↦ rw y (refl, refl)
      | inr n ↦ rw n (refl, refl)
    ]

-- The checks change neither the signal nor the selects.
pub checked_opts :
    (view : SignalView) (parsed opts : TraceOptions)
    → check_query view parsed ≡ accepted opts
    → (opts.root_signal ≡ parsed.root_signal)
      × (opts.signal_select_axes ≡ parsed.signal_select_axes)
unfolding check_query
checked_opts view parsed opts h =
    let (_, same) = checked-accepted _ opts _ h in
    let (root, selects) = warned_fields view (record parsed {
      coordinate_encoding = encoding_of view;
      declared_axes = declared_of view;
    }) in
    (
      sym (ap (λ (o : TraceOptions). o.root_signal) same) ∙ root,
      sym (ap (λ (o : TraceOptions). o.signal_select_axes) same) ∙ selects,
    )
