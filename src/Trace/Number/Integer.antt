-- ===== src/Trace/Number/Integer.antt =====
-- Signed integers and their texts.
use auto_waveform_debugger.Base.{ℕ, ◌+◌, ◌≡◌, ◌≢◌, ap, sym, ◌∷◌, Str, arith, Bool, false, ◌==◌}
use auto_waveform_debugger.Trace.Number.{to_string, to_string_shape, to_string-injective}

-- `negsuc n` is -(n + 1).
pub data ℤ : Type 0 where
  pos : ℕ → ℤ
  negsuc : ℕ → ℤ

abbrev pub integer_text : ℤ → Str
integer_text (pos n) = to_string n
integer_text (negsuc n) = b'-' ∷ to_string (n + 1)

abbrev pub same_integer : ℤ → ℤ → Bool
same_integer (pos m) (pos n) = m == n
same_integer (negsuc m) (negsuc n) = m == n
same_integer a b = false

minus-ne-text : (s : Str) (n : ℕ) → b'-' ∷ s ≢ to_string n
minus-ne-text s n e =
    let (c, t, shape, first, others) = to_string_shape n in
    let same : b'-' ≡ c = cc (e, shape) in absurd (ground (arith, same))

pub integer_text-injective : (a b : ℤ) → integer_text a ≡ integer_text b → a ≡ b
integer_text-injective (pos m) (pos n) e = ap pos (to_string-injective m n e)
integer_text-injective (pos m) (negsuc n) e = absurd (minus-ne-text (to_string (n + 1)) m (sym e))
integer_text-injective (negsuc m) (pos n) e = absurd (minus-ne-text (to_string (m + 1)) n e)
integer_text-injective (negsuc m) (negsuc n) e =
    let same : m + 1 ≡ n + 1 = to_string-injective (m + 1) (n + 1) (cc e) in
    ap negsuc (omega (arith, same))
