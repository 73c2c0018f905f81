-- ===== src/Trace/Query/Resolve/Longest.antt =====
-- The longest stored name that leaves selectors is taken for the signal.
use mathlib.Core.Option
use mathlib.Core.List.{append_assoc, append-nil}
use native.Mathlib.Decide.{dec_lt}
use auto_waveform_debugger.Base.{
  ℕ, suc, ◌<◌, ◌≡◌, ◌≢◌, refl, sym, ap, ◌∙◌, true, false, Option, none, some, List, [], ◌∷◌, ◌++◌,
  Str, is_some, length, if◌then◌else◌, ◌==◌, ==_iff, arith, Bool-cases, inl, inr,
}
use auto_waveform_debugger.Trace.Select.{parse_signal_query}
use auto_waveform_debugger.Trace.Query.Resolve.{
  lookup_signal_id, Resolved, split_at_bracket, or_else, last_split, resolve_signal_query,
  set_query, or_parsed, resolve_options,
}
use auto_waveform_debugger.Trace.Query.{TraceOptions}

-- At each bracket of the suffix, the split there gives nothing.
abbrev pub NoSplit : List Str → Str → Str → Type 0
NoSplit names root suffix =
    (p s : Str) → suffix ≡ p ++ b'[' ∷ s → split_at_bracket names (root ++ p) (b'[' ∷ s) ≡ none

-- The last bracket of the suffix at which the split gives something, and what it gives.
abbrev pub LastSplit : List Str → Str → Str → Resolved → Type 0
LastSplit names root suffix r =
    (p s : Str) × (suffix ≡ p ++ b'[' ∷ s)
    × (split_at_bracket names (root ++ p) (b'[' ∷ s) ≡ some r)
    × ((q t : Str)
        → suffix ≡ q ++ b'[' ∷ t
        → length p < length q
        → split_at_bracket names (root ++ q) (b'[' ∷ t) ≡ none)

abbrev Finds : List Str → Str → Str → Option Resolved → Type 0
Finds names root suffix none = NoSplit names root suffix
Finds names root suffix (some r) = LastSplit names root suffix r

shift :
    (names : List Str) (root : Str) (c : ℕ) (p s : Str)
    → split_at_bracket names ((root ++ c ∷ []) ++ p) s ≡ split_at_bracket names (root ++ c ∷ p) s
shift names root c p s = ap (λ t. split_at_bracket names t s) (append_assoc root (c ∷ []) p)

at_front :
    (names : List Str) (root s : Str)
    → split_at_bracket names (root ++ []) s ≡ split_at_bracket names root s
at_front names root s = ap (λ t. split_at_bracket names t s) (append-nil root)

-- A split behind the first character is one of the rest.
behind :
    (names : List Str) (root : Str) (c d : ℕ) (s q t : Str)
    → c ∷ s ≡ d ∷ (q ++ b'[' ∷ t)
    → (s ≡ q ++ b'[' ∷ t → split_at_bracket names ((root ++ c ∷ []) ++ q) (b'[' ∷ t) ≡ none)
    → split_at_bracket names (root ++ d ∷ q) (b'[' ∷ t) ≡ none
behind names root c d s q t e f =
    let same : d ≡ c = cc in rw same (sym (shift names root c q (b'[' ∷ t)) ∙ f (cc))

last_behind :
    (names : List Str) (root : Str) (c : ℕ) (s p : Str)
    → ((q t : Str)
        → s ≡ q ++ b'[' ∷ t
        → length p < length q
        → split_at_bracket names ((root ++ c ∷ []) ++ q) (b'[' ∷ t) ≡ none)
    → (q t : Str) → c ∷ s ≡ q ++ b'[' ∷ t
    → suc (length p) < length q
    → split_at_bracket names (root ++ q) (b'[' ∷ t) ≡ none
last_behind names root c s p last [] t e l = absurd (omega arith)
last_behind names root c s p last (d ∷ q) t e l =
    behind names root c d s q t e (λ f. last q t f (omega arith))

none_from :
    (names : List Str) (root : Str) (c : ℕ) (s : Str)
    → NoSplit names (root ++ c ∷ []) s
    → none ≡ (if c == b'[' then split_at_bracket names root (c ∷ s) else none)
    → (q t : Str) → c ∷ s ≡ q ++ b'[' ∷ t
    → split_at_bracket names (root ++ q) (b'[' ∷ t) ≡ none
none_from names root c s h e [] t split =
    let bracket : c ≡ b'[' = cc in
    let rest : s ≡ t = cc in rw (append-nil root, ← rest) (sym (rw bracket at e))
none_from names root c s h e (d ∷ q) t split = behind names root c d s q t split (λ f. h q t f)

only_behind :
    (names : List Str) (root : Str) (c : ℕ) (s : Str)
    → NoSplit names (root ++ c ∷ []) s
    → (q t : Str) → c ∷ s ≡ q ++ b'[' ∷ t
    → 0 < length q
    → split_at_bracket names (root ++ q) (b'[' ∷ t) ≡ none
only_behind names root c s h [] t e l = absurd (omega arith)
only_behind names root c s h (d ∷ q) t e l = behind names root c d s q t e (λ f. h q t f)

here_split :
    (names : List Str) (root : Str) (c : ℕ) (s : Str) (r : Resolved)
    → some r ≡ (if c == b'[' then split_at_bracket names root (c ∷ s) else none)
    → (c ≡ b'[') × (split_at_bracket names root (c ∷ s) ≡ some r)
here_split names root c s r e = elim (Bool-cases (c == b'[')) [
  | inl y ↦ ((==_iff c b'[').0 y, sym (rw y at e))
  | inr n ↦ cc (rw n at e)
]

Finds-later :
    (names : List Str) (root : Str) (c : ℕ) (s : Str) (later here : Option Resolved)
    → Finds names (root ++ c ∷ []) s later
    → here ≡ (if c == b'[' then split_at_bracket names root (c ∷ s) else none)
    → Finds names root (c ∷ s) (or_else later here)
Finds-later names root c s (some r) here (p, t, split, good, last) e = (
  c ∷ p,
  t,
  ap (λ u. c ∷ u) split,
  sym (shift names root c p (b'[' ∷ t)) ∙ good,
  last_behind names root c s p last,
)
Finds-later names root c s none none h e = none_from names root c s h e
Finds-later names root c s none (some r) h e =
    let (bracket, good) = here_split names root c s r e in
    (
      [],
      s,
      ap (λ d. d ∷ s) bracket,
      at_front names root (b'[' ∷ s)
          ∙ ap (λ d. split_at_bracket names root (d ∷ s)) (sym bracket)
          ∙ good,
      only_behind names root c s h,
    )

nil-ne-append : (p s : Str) → [] ≢ p ++ b'[' ∷ s
nil-ne-append [] s e = cc
nil-ne-append (c ∷ p) s e = cc

Finds-last_split :
    (names : List Str) (root suffix : Str) → Finds names root suffix (last_split names root suffix)
unfolding last_split
Finds-last_split names root [] = λ p s e. absurd (nil-ne-append p s e)
Finds-last_split names root (c ∷ s) =
    Finds-later names root c s (last_split names (root ++ c ∷ []) s) _
      (Finds-last_split names (root ++ c ∷ []) s) refl

same_front :
    (p q s t : Str) → length p ≡ length q → p ++ b'[' ∷ s ≡ q ++ b'[' ∷ t → (p ≡ q) × (s ≡ t)
same_front [] [] s t l e = (refl, cc)
same_front [] (d ∷ q) s t l e = absurd (omega arith)
same_front (c ∷ p) [] s t l e = absurd (omega arith)
same_front (c ∷ p) (d ∷ q) s t l e =
    let (front, rest) = same_front p q s t (omega arith) (cc) in
    let same : c ≡ d = cc in (rw (same, front) refl, rest)

no_later :
    (names : List Str) (p s : Str) (r : Resolved)
    → split_at_bracket names p s ≡ some r
    → split_at_bracket names p s ≡ none
    → ⊥
no_later names p s r h k = cc

LastSplit-unique :
    (names : List Str) (suffix : Str) (r u : Resolved)
    → LastSplit names [] suffix r
    → LastSplit names [] suffix u
    → r ≡ u
LastSplit-unique names suffix r u (p, s, e, g, l) (q, t, f, k, m) =
    elim (dec_lt (length p) (length q)) [
      | yes below ↦ absurd (no_later names q (b'[' ∷ t) u k (l q t f below))
      | no not_below ↦ elim (dec_lt (length q) (length p)) [
        | yes above ↦ absurd (no_later names p (b'[' ∷ s) r g (m p s e above))
        | no not_above ↦
            let (front, rest) = same_front p q s t (omega arith) (sym e ∙ f) in
            let other : split_at_bracket names p (b'[' ∷ s) ≡ some u = rw (front, rest) k in cc
      ]
    ]

unique_split :
    (names : List Str) (signal : Str) (found : Option Resolved) (r : Resolved)
    → Finds names [] signal found
    → LastSplit names [] signal r
    → found ≡ some r
unique_split names signal none r h (p, s, e, g, l) =
    absurd (no_later names p (b'[' ∷ s) r g (h p s e))
unique_split names signal (some u) r h k = ap some (LastSplit-unique names signal u r h k)

last_split-NoSplit :
    (names : List Str) (signal : Str) (found : Option Resolved)
    → Finds names [] signal found
    → NoSplit names [] signal
    → found ≡ none
last_split-NoSplit names signal none h k = refl
last_split-NoSplit names signal (some u) (p, s, e, g, l) k =
    absurd (no_later names p (b'[' ∷ s) u g (k p s e))

-- A name that is stored is taken as it stands. Otherwise the signal is split at its last bracket at
-- which a stored name stands before it and nothing but selects from it on; and only if there is no
-- such bracket, the signal is parsed without a look at the names.
pub resolve_signal_query_lem :
    (names : List Str) (signal : Str)
    → (is_some (lookup_signal_id names signal) ≡ true
        → resolve_signal_query names signal ≡ some (signal, []))
      × (is_some (lookup_signal_id names signal) ≡ false
          → (r : Resolved) → LastSplit names [] signal r
          → resolve_signal_query names signal ≡ some r)
      × (is_some (lookup_signal_id names signal) ≡ false
          → NoSplit names [] signal
          → resolve_signal_query names signal ≡ parse_signal_query signal)
unfolding resolve_signal_query
resolve_signal_query_lem names signal = (
  λ h. rw h refl,
  λ h r last.
      let found : last_split names [] signal ≡ some r =
        unique_split names signal _ r (Finds-last_split names [] signal) last in
      rw (h, found) refl,
  λ h nowhere.
      let found : last_split names [] signal ≡ none =
        last_split-NoSplit names signal _ (Finds-last_split names [] signal) nowhere in
      rw (h, found) refl,
)

abbrev query_of : TraceOptions → Resolved
query_of opts = (opts.root_signal, opts.signal_select_axes)

map-or_parsed :
    (parsed : TraceOptions) (found : Option Resolved)
    → Option.map query_of (or_parsed parsed found)
      ≡ or_else found (parse_signal_query parsed.signal)
map-or_parsed parsed none =
    elim (parse_signal_query parsed.signal)
      as (λ x. Option.map query_of (Option.map (set_query parsed parsed.signal_select) x) ≡ x) [
        | none ↦ refl
        | some r ↦ refl
      ]
map-or_parsed parsed (some r) = refl

-- The options that a run resolves have the name and the selects of the query.
query_of-resolve_options :
    (names : List Str) (parsed : TraceOptions)
    → Option.map query_of (resolve_options names parsed) ≡ resolve_signal_query names parsed.signal
unfolding resolve_signal_query resolve_options
query_of-resolve_options names parsed =
    elim (Bool-cases (is_some (lookup_signal_id names parsed.signal))) [
      | inl stored ↦ rw stored refl
      | inr other ↦ rw other (map-or_parsed parsed (last_split names [] parsed.signal))
    ]
