-- ===== src/Trace/Find/Literal.antt =====
-- RequiredLiteral: the literal of a pattern occurs in every text that the pattern matches.
use mathlib.Core.List.{append_assoc, append-nil}
use mathlib.Core.Path.{subst}
use auto_waveform_debugger.Base.{
  ℕ, zero, suc, ◌≤◌, ◌≡◌, ◌≢◌, refl, sym, ap, ◌∙◌, Bool, true, false, not, ◌&&◌, ◌||◌, Option, none,
  some, List, [], ◌∷◌, ◌++◌, Str, is_empty, length, replicate, if◌then◌else◌, ltb, ◌==◌, arith,
  Bool-cases, Option-cases, inl, inr,
}
use auto_waveform_debugger.Base.Text.{starts_with}
use auto_waveform_debugger.Trace.Find.{
  escapable, is_group, is_free, is_quantifier, longer, stacked, after_literal, required_from,
  required_literal, has_text,
}

-- What the documented grammar of std::regex says of the pieces of a pattern: a character that is
-- not special, or an escaped one, stands for itself, as often as the quantifier behind it says. Of
-- the other special characters nothing is used: they may stand for any text.
pub data Piece : Type 0 where
  char : ℕ → Piece
  -- at least so many times
  repeat : ℕ → ℕ → Piece
  anything : Piece

-- The texts that pieces stand for.
abbrev pub Spells : List Piece → Str → Type 0
Spells [] s = s ≡ []
Spells (char c ∷ ps) s = (t : Str) × (s ≡ c ∷ t) × Spells ps t
Spells (repeat least c ∷ ps) s =
    (n : ℕ) × (t : Str) × (least ≤ n) × (s ≡ replicate n c ++ t) × Spells ps t
Spells (anything ∷ ps) s = (u t : Str) × (s ≡ u ++ t) × Spells ps t

abbrev pub cons_piece : Piece → Option (List Piece) → Option (List Piece)
cons_piece p none = none
cons_piece p (some ps) = some (p ∷ ps)

-- A literal with the text of the pattern behind it; none where quantifiers are stacked on it.
abbrev pub literal_piece : ℕ → Str → Option (List Piece) → Option (List Piece)
literal_piece c [] ps = cons_piece (char c) ps
literal_piece c (q ∷ rest) ps =
    if not (is_quantifier q)
    then cons_piece (char c) ps
    else if stacked rest
    then none
    else cons_piece (repeat (if q == b'+' then 1 else 0) c) ps

-- The pieces of a pattern without groups, alternatives, classes, braces and other escapes. `escaped`
-- tells that the character before is a backslash.
unfoldable pub pieces : Str → Bool → Option (List Piece)
unfolding stacked
pieces [] true = none
pieces [] false = some []
pieces (c ∷ rest) true = if escapable c then literal_piece c rest (pieces rest false) else none
pieces (c ∷ rest) false =
    if is_group c
    then none
    else if c == b'\\'
    then pieces rest true
    else if is_free c
    then cons_piece anything (pieces rest false)
    else literal_piece c rest (pieces rest false)

abbrev pub Occurs : Str → Str → Type 0
Occurs part s = (u v : Str) × (s ≡ u ++ (part ++ v))

-- If `best` occurs in what is matched so far, which ends in `run`, then `lit` occurs in the whole.
abbrev Found : List Piece → Str → Str → Str → Type 0
Found ps best run lit =
    (w s : Str) → Occurs best (w ++ run) → Spells ps s → Occurs lit (w ++ (run ++ s))

Occurs-longer : (best run w : Str) → Occurs best (w ++ run) → Occurs (longer best run) (w ++ run)
Occurs-longer best run w h = elim (Bool-cases (ltb (length best) (length run))) [
  | inl l ↦ rw l (w, [], ap (λ t. w ++ t) (sym (append-nil run)))
  | inr g ↦ rw g h
]

Occurs-append : (part s t : Str) → Occurs part s → Occurs part (s ++ t)
Occurs-append part s t (u, v, e) = (
  u,
  v ++ t,
  ap (λ x. x ++ t) e ∙ append_assoc u (part ++ v) t ∙ ap (λ x. u ++ x) (append_assoc part v t),
)

Occurs-eq : (part s t : Str) → s ≡ t → Occurs part s → Occurs part t
Occurs-eq part s t e (u, v, h) = (u, v, sym e ∙ h)

Found-anything :
    (ps : List Piece) (best run lit : Str)
    → Found ps (longer best run) [] lit
    → Found (anything ∷ ps) best run lit
Found-anything ps best run lit found w s o (u, t, e, h) =
    Occurs-eq lit ((w ++ (run ++ u)) ++ t) (w ++ (run ++ s)) (rw e (simp append_assoc)) (
      found (w ++ (run ++ u)) t
        (Occurs-eq (longer best run) ((w ++ run) ++ u) ((w ++ (run ++ u)) ++ [])
          (simp (append_assoc, append-nil))
          (Occurs-append (longer best run) (w ++ run) u (Occurs-longer best run w o)))
        h)

Found-char :
    (c : ℕ) (ps : List Piece) (best run lit : Str)
    → Found ps best (run ++ c ∷ []) lit
    → Found (char c ∷ ps) best run lit
Found-char c ps best run lit found w s o (t, e, h) =
    Occurs-eq lit (w ++ ((run ++ c ∷ []) ++ t)) (w ++ (run ++ s)) (rw e (simp append_assoc)) (
      found w t
        (Occurs-eq best ((w ++ run) ++ c ∷ []) (w ++ (run ++ c ∷ [])) (simp append_assoc)
          (Occurs-append best (w ++ run) (c ∷ []) o))
        h)

Found-optional :
    (c : ℕ) (ps : List Piece) (best run lit : Str)
    → Found (anything ∷ ps) best run lit
    → Found (repeat 0 c ∷ ps) best run lit
Found-optional c ps best run lit found w s o (n, t, _, e, h) = found w s o (replicate n c, t, e, h)

Found-repeated :
    (c : ℕ) (ps : List Piece) (best run lit : Str)
    → Found (anything ∷ ps) best (run ++ c ∷ []) lit
    → Found (repeat 1 c ∷ ps) best run lit
Found-repeated c ps best run lit found w s o (zero, t, l, e, h) = absurd (omega arith)
Found-repeated c ps best run lit found w s o (suc n, t, l, e, h) =
    Found-char c (anything ∷ ps) best run lit found w s o
      (replicate n c ++ t, e, (replicate n c, t, refl, h))

-- The analysis returns a literal only for a pattern of pieces, and for these rightly.
abbrev Finds : Option Str → Option (List Piece) → Str → Str → Type 0
Finds result ps best run =
    (lit : Str) → result ≡ some lit → (is : List Piece) × (ps ≡ some is) × Found is best run lit

Finds-longer :
    (next : Str → Str → Option Str) (ps : Option (List Piece)) (best run : Str)
    → ((best run : Str) → Finds (next best run) ps best run)
    → Finds (next (longer best run) []) (cons_piece anything ps) best run
Finds-longer next ps best run ih lit h =
    let (is, e, found) = ih (longer best run) [] lit h in
    (anything ∷ is, rw e refl, Found-anything is best run lit found)

Finds-literal :
    (next : Str → Str → Option Str) (ps : Option (List Piece)) (c : ℕ) (rest best run : Str)
    → ((best run : Str) → Finds (next best run) ps best run)
    → Finds (after_literal next c rest best run) (literal_piece c rest ps) best run
unfolding after_literal
Finds-literal next ps c [] best run ih lit h =
    let (is, e, found) = ih best (run ++ c ∷ []) lit h in
    (char c ∷ is, rw e refl, Found-char c is best run lit found)
Finds-literal next ps c (q ∷ rest) best run ih lit h = elim (Bool-cases (is_quantifier q)) [
  | inr plain ↦
      let (is, e, found) = ih best (run ++ c ∷ []) lit (ground arith) in
      (char c ∷ is, rw (plain, e) refl, Found-char c is best run lit found)
  | inl quantified ↦ elim (Bool-cases (stacked rest)) [
    | inl deep ↦ cc (rw (quantified, deep) at h)
    | inr simple ↦ elim (Bool-cases (q == b'+')) [
      | inl plus ↦
          let (is, e, found) = ih (longer best (run ++ c ∷ [])) [] lit (ground arith) in
          (
            repeat 1 c ∷ is,
            rw (quantified, simple, plus, e) refl,
            Found-repeated c is best run lit (Found-anything is best (run ++ c ∷ []) lit found),
          )
      | inr other ↦
          let (is, e, found) = ih (longer best run) [] lit (ground arith) in
          (
            repeat 0 c ∷ is,
            rw (quantified, simple, other, e) refl,
            Found-optional c is best run lit (Found-anything is best run lit found),
          )
    ]
  ]
]

Finds-required :
    (p : Str) (escaped : Bool) (best run : Str)
    → Finds (required_from p escaped best run) (pieces p escaped) best run
unfolding required_from pieces
Finds-required [] true best run lit h = cc
Finds-required [] false best run lit h =
    let same : longer best run ≡ lit = cc in
    (
      [],
      refl,
      λ w s o e.
          subst (λ l. Occurs l (w ++ (run ++ s))) same
            (Occurs-eq (longer best run) (w ++ run) (w ++ (run ++ s)) (rw e (simp append-nil))
              (Occurs-longer best run w o)),
    )
Finds-required (c ∷ rest) true best run lit h = elim (Bool-cases (escapable c)) [
  | inl e ↦ rw e (
      Finds-literal (required_from rest false) (pieces rest false) c rest best run
        (Finds-required rest false) lit (rw e at h))
  | inr e ↦ cc (rw e at h)
]
Finds-required (c ∷ rest) false best run lit h = elim (Bool-cases (is_group c)) [
  | inl e ↦ cc (rw e at h)
  | inr plain ↦ elim (Bool-cases (c == b'\\')) [
    | inl e ↦ rw (plain, e) (Finds-required rest true best run lit (rw (plain, e) at h))
    | inr other ↦ elim (Bool-cases (is_free c)) [
      | inl e ↦
          rw (plain, other, e)
            (Finds-longer (required_from rest false) (pieces rest false) best run
              (Finds-required rest false) lit (rw (plain, other, e) at h))
      | inr e ↦
          rw (plain, other, e)
            (Finds-literal (required_from rest false) (pieces rest false) c rest best run
              (Finds-required rest false) lit (rw (plain, other, e) at h))
    ]
  ]
]

starts_with-append : (part v : Str) → starts_with part (part ++ v) ≡ true
starts_with-append [] v = refl
starts_with-append (p ∷ ps) v = ground (arith, starts_with-append ps v)

has_text-Occurs : (part u v : Str) → has_text part (u ++ (part ++ v)) ≡ true
has_text-Occurs [] [] [] = refl
has_text-Occurs [] [] (c ∷ v) = refl
has_text-Occurs (p ∷ ps) [] v = rw (starts_with-append (p ∷ ps) v) refl
has_text-Occurs part (x ∷ u) v = ground (arith, has_text-Occurs part u v)

-- Where the analysis of a pattern finds a literal, the pattern is made of pieces, and the literal is
-- a part of every text in which something stands that the pieces spell.
pub required_literal_sound :
    (pattern : Str)
    → required_literal pattern ≢ []
    → (ps : List Piece) × (pieces pattern false ≡ some ps)
      × ((u w v : Str) → Spells ps w → has_text (required_literal pattern) (u ++ (w ++ v)) ≡ true)
unfolding required_literal
required_literal_sound pattern found = elim (Option-cases (required_from pattern false [] [])) [
  | inl e ↦ absurd (found (rw e refl))
  | inr (lit, e) ↦
      let (ps, parsed, finds) = Finds-required pattern false [] [] lit e in
      (
        ps,
        parsed,
        λ u w v h.
            let (a, b, split) = finds [] w ([], [], refl) h in
            rw (e, split)
              (ap (has_text lit) (simp append_assoc) ∙ has_text-Occurs lit (u ++ a) (b ++ v)),
      )
]

-- What is assumed of std::regex_search: where it finds a pattern that is made of pieces, a part of
-- the text is spelled by them.
pub record FindsPieces (regex_search : Str → Str → Bool) : Type 0 where
  pub finds :
      (pattern s : Str)
      → regex_search pattern s ≡ true
      → (ps : List Piece) → pieces pattern false ≡ some ps
      → (u w v : Str) × (s ≡ u ++ (w ++ v)) × Spells ps w

true-ne-false : true ≢ false
true-ne-false e = cc

-- The test for the literal leaves out no name that the pattern matches.
pub prefilter_lem :
    (regex_search : Str → Str → Bool) (pattern s : Str)
    → FindsPieces regex_search
    → ((is_empty (required_literal pattern) || has_text (required_literal pattern) s)
        && regex_search pattern s)
      ≡ regex_search pattern s
prefilter_lem regex_search pattern s regex = elim (Bool-cases (regex_search pattern s)) [
  | inr no_match ↦ ground arith
  | inl matched ↦ elim (Bool-cases (is_empty (required_literal pattern))) [
    | inl none_required ↦ ground arith
    | inr required ↦
        let found : required_literal pattern ≢ [] =
          λ e. true-ne-false (sym (ap is_empty e) ∙ required) in
        let (ps, parsed, occurs) = required_literal_sound pattern found in
        let (u, w, v, split, h) = regex.finds pattern s matched ps parsed in
        let inside : has_text (required_literal pattern) s ≡ true = rw split (occurs u w v h) in
        ground arith
  ]
]
