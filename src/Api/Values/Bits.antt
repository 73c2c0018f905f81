-- ===== src/Api/Values/Bits.antt =====
-- Texts of digits as numbers: the decimal digits and the bits that AgentAPI.cpp computes with.
use auto_waveform_debugger.Base.{
  ℕ, zero, suc, ◌+◌, ◌-◌, ◌*◌, ◌^◌, ◌≤◌, ◌<◌, ◌≡◌, refl, ap, sym, ◌∙◌, List, [], ◌∷◌, ◌++◌, Str,
  arith, All, length, length-append, replicate, reverse,
}
use mathlib.Core.List.{reverse-cons, reverse-reverse}
use native.Mathlib.Nat.{pow-suc}

-- The number that decimal digits stand for, after digits that stand for `acc`.
abbrev pub dec_value : ℕ → Str → ℕ
dec_value acc [] = acc
dec_value acc (d ∷ ds) = dec_value (acc * 10 + (d - b'0')) ds

-- The same for bits.
abbrev pub bits_value : ℕ → Str → ℕ
bits_value acc [] = acc
bits_value acc (b ∷ bs) = bits_value (acc * 2 + (b - b'0')) bs

abbrev pub AreDigits : Str → Type 0
AreDigits = All λ d. (b'0' ≤ d) × (d ≤ b'9')

abbrev pub AreBits : Str → Type 0
AreBits = All λ b. (b'0' ≤ b) × (b ≤ b'1')

pub dec_value-append :
    (acc : ℕ) (ds : Str) (d : ℕ) → dec_value acc (ds ++ d ∷ []) ≡ dec_value acc ds * 10 + (d - b'0')
dec_value-append acc [] d = refl
dec_value-append acc (e ∷ ds) d = dec_value-append (acc * 10 + (e - b'0')) ds d

pub bits_value-append :
    (acc : ℕ) (bs cs : Str) → bits_value acc (bs ++ cs) ≡ bits_value (bits_value acc bs) cs
bits_value-append acc [] cs = refl
bits_value-append acc (b ∷ bs) cs = bits_value-append (acc * 2 + (b - b'0')) bs cs

pub bits_value-zeros : (n : ℕ) (bs : Str) → bits_value 0 (replicate n b'0' ++ bs) ≡ bits_value 0 bs
bits_value-zeros zero bs = refl
bits_value-zeros (suc n) bs = bits_value-zeros n bs

-- The bits with the lowest first.
abbrev pub low_value : Str → ℕ
low_value [] = 0
low_value (b ∷ bs) = (b - b'0') + 2 * low_value bs

pub bits_value-reverse : (bs : Str) → bits_value 0 (reverse bs) ≡ low_value bs
bits_value-reverse [] = refl
bits_value-reverse (b ∷ bs) =
    rw (reverse-cons b bs)
      (omega (arith, bits_value-append 0 (reverse bs) (b ∷ []), bits_value-reverse bs))

pub All-append {ℓ κ} :
    {A : Type ℓ} (P : A → Type κ) (xs ys : List A) → All P xs → All P ys → All P (xs ++ ys)
All-append P [] ys h k = k
All-append P (x ∷ xs) ys h k = (h.0, All-append P xs ys h.1 k)

pub All-reverse {ℓ κ} : {A : Type ℓ} (P : A → Type κ) (xs : List A) → All P xs → All P (reverse xs)
All-reverse P [] h = tt
All-reverse P (x ∷ xs) h =
    rw (reverse-cons x xs) (All-append P (reverse xs) (x ∷ []) (All-reverse P xs h.1) (h.0, tt))

pub All-replicate {ℓ κ} :
    {A : Type ℓ} (P : A → Type κ) (n : ℕ) (a : A) → P a → All P (replicate n a)
All-replicate P zero a h = tt
All-replicate P (suc n) a h = (h, All-replicate P n a h)

pub length-reverse {ℓ} : {A : Type ℓ} (xs : List A) → length (reverse xs) ≡ length xs
length-reverse [] = refl
length-reverse (x ∷ xs) =
    rw (reverse-cons x xs) (omega (arith, length-append (reverse xs) (x ∷ []), length-reverse xs))

pub bits_value-low_value : (bs : Str) → bits_value 0 bs ≡ low_value (reverse bs)
bits_value-low_value bs = rw reverse-reverse at (bits_value-reverse (reverse bs))

pub low_value-lt : (bs : Str) → AreBits bs → low_value bs < 2 ^ length bs
low_value-lt [] h = omega arith
low_value-lt (b ∷ bs) h = omega (arith, low_value-lt bs h.1, pow-suc 2 (length bs))

-- A number below 2 ^ n has the top bit of longer bits clear.
low_value_unique :
    (bs cs : Str)
    → AreBits bs
    → AreBits cs
    → length bs ≡ length cs
    → low_value bs ≡ low_value cs
    → bs ≡ cs
low_value_unique [] [] h k l e = refl
low_value_unique [] (c ∷ cs) h k l e = absurd (omega arith)
low_value_unique (b ∷ bs) [] h k l e = absurd (omega arith)
low_value_unique (b ∷ bs) (c ∷ cs) h k l e =
    let rest : bs ≡ cs = low_value_unique bs cs h.1 k.1 (omega arith) (omega arith) in
    let first : b ≡ c = omega arith in rw (rest, first)

-- Bits of one length that stand for one number are the same.
pub bits_value_unique :
    (bs cs : Str)
    → AreBits bs
    → AreBits cs
    → length bs ≡ length cs
    → bits_value 0 bs ≡ bits_value 0 cs
    → bs ≡ cs
bits_value_unique bs cs h k l e =
    let same =
      low_value_unique (reverse bs) (reverse cs) (All-reverse _ bs h) (All-reverse _ cs k)
        (omega (arith, length-reverse bs, length-reverse cs))
        (sym (bits_value-low_value bs) ∙ e ∙ bits_value-low_value cs) in
    sym (reverse-reverse bs) ∙ ap reverse same ∙ reverse-reverse cs

pub bits_value-lt : (bs : Str) → AreBits bs → bits_value 0 bs < 2 ^ length bs
bits_value-lt bs h =
    rw (bits_value-low_value bs, ← length-reverse bs)
      (low_value-lt (reverse bs) (All-reverse _ bs h))
