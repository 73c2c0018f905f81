-- ===== src/Trace/Query/Rewrite/Address.antt =====
-- The indexes that flat_rewrite finds address the bit.
use mathlib.Core.Path.{subst}
use native.Mathlib.Nat.{mod-lt, div-add-mod', add-mul, mul_assoc, add_assoc}
use auto_waveform_debugger.Base.{
  ℕ, ◌+◌, ◌*◌, ◌/◌, ◌%◌, ◌<◌, ◌≡◌, refl, sym, ap, ◌∙◌, Bool, true, not, ◌&&◌, ◌||◌, Option, none,
  some, List, [], ◌∷◌, if◌then◌else◌, arith, Bool-cases, inl, inr,
}
use auto_waveform_debugger.Trace.Number.Integer.{ℤ}
use auto_waveform_debugger.Trace.Overlap.{leb_ℤ}
use auto_waveform_debugger.Trace.Query.{DeclaredAxis, has_flag, axis_fixed, axis_packed}
use auto_waveform_debugger.Trace.Query.Rewrite.{distance, width, index_at, next_axis, rewrite_axes}

-- The number of bits of the axes, and the place of indexes, counted from the right: what stands to
-- the right of the first index, and the place within.
unfoldable pub bits : List DeclaredAxis → ℕ
bits [] = 1
bits (axis ∷ axes) = width axis * bits axes

unfoldable pub address : List DeclaredAxis → List ℤ → ℕ
address [] indexes = 0
address (axis ∷ axes) [] = 0
address (axis ∷ axes) (index ∷ indexes) =
    distance index axis.right * bits axes + address axes indexes

-- An index between the bounds of the axis, for each axis.
abbrev pub between : DeclaredAxis → ℤ → Bool
between axis index =
    if leb_ℤ axis.right axis.left
    then leb_ℤ axis.right index && leb_ℤ index axis.left
    else leb_ℤ axis.left index && leb_ℤ index axis.right

abbrev pub AreIndexes : List DeclaredAxis → List ℤ → Type 0
AreIndexes [] [] = Unit
AreIndexes (axis ∷ axes) (index ∷ indexes) = (between axis index ≡ true) × AreIndexes axes indexes
AreIndexes axes indexes = ⊥

distance-index_at :
    (axis : DeclaredAxis) (n : ℕ) → n < width axis → distance (index_at axis n) axis.right ≡ n
distance-index_at axis n h = ground arith

between-index_at :
    (axis : DeclaredAxis) (n : ℕ) → n < width axis → between axis (index_at axis n) ≡ true
between-index_at axis n h = ground arith

some_injective {ℓ} : {A : Type ℓ} {a b : A} → some a ≡ some b → a ≡ b
some_injective e = cc

place : (n w b a : ℕ) → (n / w) * (w * b) + (n % w * b + a) ≡ n * b + a
place n w b a =
    sym (add_assoc (n / w * (w * b)) (n % w * b) a)
    ∙ ap (λ t. t + n % w * b + a) (sym (mul_assoc (n / w) w b))
    ∙ ap (λ t. t + a) (sym (add-mul (n / w * w) (n % w) b))
    ∙ ap (λ t. t * b + a) (div-add-mod' n w)

-- What the loop over the axes leaves: the bit is the bit that is left, in units of all axes, and the
-- place of the indexes.
abbrev Rewrites : List DeclaredAxis → ℕ → List ℤ × ℕ → Type 0
Rewrites axes bit (indexes, left) =
    AreIndexes axes indexes × (left * bits axes + address axes indexes ≡ bit)

next_axis-Rewrites :
    (axis : DeclaredAxis) (axes : List DeclaredAxis) (bit : ℕ) (found : Option (List ℤ × ℕ))
    (indexes : List ℤ) (left : ℕ)
    → ((r : List ℤ × ℕ) → found ≡ some r → Rewrites axes bit r)
    → next_axis axis found ≡ some (indexes, left)
    → Rewrites (axis ∷ axes) bit (indexes, left)
unfolding bits address
next_axis-Rewrites axis axes bit none indexes left h e = cc
next_axis-Rewrites axis axes bit (some (is, n)) indexes left h e =
    elim (Bool-cases
      (not (has_flag axis_fixed axis.flags) || not (has_flag axis_packed axis.flags))) [
        | inl y ↦ cc (rw y at e)
        | inr k ↦
            let (within, whole) = h (is, n) refl in
            let small : n % width axis < width axis = mod-lt n (omega arith) in
            subst (λ r. Rewrites (axis ∷ axes) bit r) (some_injective (rw k at e))
              (
                (between-index_at axis (n % width axis) small, within),
                ap
                      (λ d.
                        n / width axis * (width axis * bits axes)
                        + (d * bits axes + address axes is))
                      (distance-index_at axis (n % width axis) small)
                    ∙ place n (width axis) (bits axes) (address axes is)
                    ∙ whole,
              )
      ]

rewrite_axes-Rewrites :
    (axes : List DeclaredAxis) (bit : ℕ) (r : List ℤ × ℕ)
    → rewrite_axes axes bit ≡ some r
    → Rewrites axes bit r
unfolding rewrite_axes
rewrite_axes-Rewrites [] bit r e =
    subst (Rewrites [] bit) (some_injective e) (unfold bits address in (tt, omega arith))
rewrite_axes-Rewrites (axis ∷ axes) bit (indexes, left) e =
    next_axis-Rewrites axis axes bit (rewrite_axes axes bit) indexes left
      (rewrite_axes-Rewrites axes bit) e

-- The indexes to which a bit is rewritten lie within the declared axes, and their place, counted from
-- the right, is the bit.
pub rewrite_axes-address :
    (axes : List DeclaredAxis) (bit : ℕ) (indexes : List ℤ)
    → rewrite_axes axes bit ≡ some (indexes, 0)
    → AreIndexes axes indexes × (address axes indexes ≡ bit)
rewrite_axes-address axes bit indexes e =
    let (within, whole) = rewrite_axes-Rewrites axes bit (indexes, 0) e in (within, omega arith)
