-- ===== src/Trace/Query/Rewrite.antt =====
-- The lambda flat_rewrite of RunTraceWithSession (query/TraceQuery.cc): the declared indexes of a bit
-- that is counted from the right of a packed signal.
pub mod Address
use auto_waveform_debugger.Base.{
  ℕ, suc, ◌+◌, ◌-◌, ◌/◌, ◌%◌, Bool, not, ◌||◌, Option, none, some, List, [], ◌∷◌, ◌++◌, Str, codes,
  if◌then◌else◌, ltb, leb, ◌==◌,
}
use auto_waveform_debugger.Trace.Number.{to_string}
use auto_waveform_debugger.Trace.Number.Integer.{ℤ, pos, negsuc, integer_text, same_integer}
use auto_waveform_debugger.Trace.Overlap.{pos_part, neg_part, leb_ℤ}
use auto_waveform_debugger.Trace.Select.{Axis, format_bit_range}
use auto_waveform_debugger.Trace.Query.{DeclaredAxis, has_flag, axis_fixed, axis_packed}

-- a - b, as an integer.
abbrev pub sub_ℕ : ℕ → ℕ → ℤ
sub_ℕ a b = if leb b a then pos (a - b) else negsuc (b - a - 1)

-- std::abs(a - b)
abbrev pub distance : ℤ → ℤ → ℕ
distance a b =
    if leb_ℤ b a
    then pos_part a + neg_part b - (pos_part b + neg_part a)
    else pos_part b + neg_part a - (pos_part a + neg_part b)

abbrev pub width : DeclaredAxis → ℕ
width axis = distance axis.left axis.right + 1

-- right + n where the axis counts up to its left, right - n where it counts down to it.
abbrev pub index_at : DeclaredAxis → ℕ → ℤ
index_at axis n =
    if leb_ℤ axis.right axis.left
    then sub_ℕ (pos_part axis.right + n) (neg_part axis.right)
    else sub_ℕ (pos_part axis.right) (neg_part axis.right + n)

abbrev pub next_axis : DeclaredAxis → Option (List ℤ × ℕ) → Option (List ℤ × ℕ)
next_axis axis none = none
next_axis axis (some (indexes, bit)) =
    if not (has_flag axis_fixed axis.flags) || not (has_flag axis_packed axis.flags)
    then none
    else some (index_at axis (bit % width axis) ∷ indexes, bit / width axis)

-- The loop over the axes from the last to the first, and the bit that is left.
unfoldable pub rewrite_axes : List DeclaredAxis → ℕ → Option (List ℤ × ℕ)
rewrite_axes [] bit = some ([], bit)
rewrite_axes (axis ∷ axes) bit = next_axis axis (rewrite_axes axes bit)

unfoldable pub selectors : List ℤ → Str
unfolding format_bit_range
selectors [] = []
selectors (index ∷ indexes) = format_bit_range (index, index) ++ selectors indexes

abbrev pub rewritten : Str → ℕ → Option (List ℤ × ℕ) → Str
rewritten root bit none = []
rewritten root bit (some (indexes, left)) =
    if not (left == 0)
    then []
    else codes " Flattened bit "
      ++ (to_string bit
          ++ (codes " "
              ++ ((0xE2 ∷ 0x86 ∷ 0x92 ∷ [])
                  ++ (codes " " ++ (root ++ (selectors indexes ++ codes "."))))))

abbrev pub rewrite_index : Str → List DeclaredAxis → ℤ → Str
rewrite_index root axes (pos bit) = rewritten root bit (rewrite_axes axes bit)
rewrite_index root axes (negsuc n) = []

unfoldable pub flat_rewrite : Str → List DeclaredAxis → List Axis → Str
unfolding rewrite_axes selectors
flat_rewrite root [] selects = []
flat_rewrite root (a ∷ axes) [] = []
flat_rewrite root (a ∷ axes) ((left, right) ∷ []) =
    if same_integer left right then rewrite_index root (a ∷ axes) left else []
flat_rewrite root (a ∷ axes) (s ∷ t ∷ selects) = []
