-- ===== src/Trace/Endpoint/Key.antt =====
-- The key of an endpoint tells endpoints apart.
use auto_waveform_debugger.Base.{
  ◌≡◌, ◌≢◌, refl, sym, ap, ◌∙◌, Bool, true, List, [], ◌∷◌, ◌++◌, Str, arith, length, length-append,
}
use mathlib.Core.List.{append_assoc}
use auto_waveform_debugger.Trace.Number.{
  to_string, are_digits, to_string-are_digits, to_string-injective,
}
use auto_waveform_debugger.Trace.Number.Integer.{integer_text-injective}
use auto_waveform_debugger.Trace.Endpoint.{
  EndpointKind, EndpointRecord, Pools, endpoint_path, endpoint_file, field, flag_text, kind_text,
  refs, key_fields, join_fields, endpoint_key,
}

-- Where digits end at a colon, the digits and what is behind the colon are determined.
digits_split :
    (s t u v : Str)
    → are_digits s ≡ true
    → are_digits t ≡ true
    → s ++ b':' ∷ u ≡ t ++ b':' ∷ v
    → (s ≡ t) × (u ≡ v)
digits_split [] [] u v h k e = (refl, cc e)
digits_split [] (d ∷ t) u v h k e = let same : b':' ≡ d = cc e in absurd (ground (arith, same))
digits_split (c ∷ s) [] u v h k e = let same : c ≡ b':' = cc e in absurd (ground (arith, same))
digits_split (c ∷ s) (d ∷ t) u v h k e =
    let (front, back) = digits_split s t u v (ground arith) (ground arith) (cc e) in
    (cc (e, front), back)

append-split {ℓ} :
    {A : Type ℓ} (s t u v : List A) → length s ≡ length t → s ++ u ≡ t ++ v → (s ≡ t) × (u ≡ v)
append-split [] [] u v n e = (refl, e)
append-split [] (d ∷ t) u v n e = absurd (omega arith)
append-split (c ∷ s) [] u v n e = absurd (omega arith)
append-split (c ∷ s) (d ∷ t) u v n e =
    let (front, back) = append-split s t u v (omega arith) (cc e) in (cc (e, front), back)

-- A field ends where its length says.
field_split : (s t u v : Str) → field s ++ u ≡ field t ++ v → (s ≡ t) × (u ≡ v)
unfolding field
field_split s t u v e =
    let (counts, texts) =
      digits_split (to_string (length s)) (to_string (length t)) (s ++ u) (t ++ v)
        (to_string-are_digits (length s)) (to_string-are_digits (length t))
        (sym (append_assoc (to_string (length s)) (b':' ∷ s) u)
          ∙ e
          ∙ append_assoc (to_string (length t)) (b':' ∷ t) v) in
    append-split s t u v (to_string-injective (length s) (length t) counts) texts

field-ne-nil : (s u : Str) → field s ++ u ≢ []
unfolding field
field-ne-nil s u e = absurd (
    omega (
      arith,
      ap length e,
      length-append {0} (to_string (length s) ++ b':' ∷ s) u,
      length-append {0} (to_string (length s)) (b':' ∷ s),
    ))

join_fields-injective : (xs ys : List Str) → join_fields xs ≡ join_fields ys → xs ≡ ys
unfolding join_fields
join_fields-injective [] [] e = refl
join_fields-injective [] (y ∷ ys) e = absurd (field-ne-nil y (join_fields ys) (sym e))
join_fields-injective (x ∷ xs) [] e = absurd (field-ne-nil x (join_fields xs) e)
join_fields-injective (x ∷ xs) (y ∷ ys) e =
    let (first, others) = field_split x y (join_fields xs) (join_fields ys) e in
    cc (first, join_fields-injective xs ys others)

-- The lists of names are determined by their counts.
refs_split :
    (ls bs cs ds : List Str) → refs ls ++ refs bs ≡ refs cs ++ refs ds → (ls ≡ cs) × (bs ≡ ds)
refs_split ls bs cs ds e =
    let counts : length ls ≡ length cs = to_string-injective (length ls) (length cs) (cc e) in
    let (front, back) = append-split ls cs (refs bs) (refs ds) counts (cc e) in (front, cc back)

flag_text-injective : (a b : Bool) → flag_text a ≡ flag_text b → a ≡ b
flag_text-injective a b e = ground arith

kind_text-injective : (a b : EndpointKind) → kind_text a ≡ kind_text b → a ≡ b
kind_text-injective a b e = ground arith

-- What makes two endpoints the same in a query.
pub record SameIdentity (db : Pools) (e f : EndpointRecord) : Type 0 where
  pub kind : e.kind ≡ f.kind
  pub path : endpoint_path db e ≡ endpoint_path db f
  pub file : endpoint_file db e ≡ endpoint_file db f
  pub line : e.line ≡ f.line
  pub direction : e.direction ≡ f.direction
  pub has_assignment_range : e.has_assignment_range ≡ f.has_assignment_range
  pub assignment_start : e.assignment_start ≡ f.assignment_start
  pub assignment_end : e.assignment_end ≡ f.assignment_end
  pub assignment_text : e.assignment_text ≡ f.assignment_text
  pub bit_map : e.bit_map ≡ f.bit_map
  pub bit_map_approximate : e.bit_map_approximate ≡ f.bit_map_approximate
  pub bit_map_logical_axes : e.bit_map_logical_axes ≡ f.bit_map_logical_axes
  pub port_mapping_constant : e.port_mapping_constant ≡ f.port_mapping_constant
  pub port_mapping_unresolved : e.port_mapping_unresolved ≡ f.port_mapping_unresolved
  pub lhs_signals : e.lhs_signals ≡ f.lhs_signals
  pub rhs_signals : e.rhs_signals ≡ f.rhs_signals

key_fields-SameIdentity :
    (db : Pools) (e f : EndpointRecord) → key_fields db e ≡ key_fields db f → SameIdentity db e f
unfolding key_fields
key_fields-SameIdentity db e f h =
    let (left, right) = refs_split e.lhs_signals e.rhs_signals f.lhs_signals f.rhs_signals (cc h) in
    record {
      kind = kind_text-injective e.kind f.kind (cc h);
      path = cc h;
      file = cc h;
      line = integer_text-injective e.line f.line (cc h);
      direction = cc h;
      has_assignment_range =
          flag_text-injective e.has_assignment_range f.has_assignment_range (cc h);
      assignment_start = to_string-injective e.assignment_start f.assignment_start (cc h);
      assignment_end = to_string-injective e.assignment_end f.assignment_end (cc h);
      assignment_text = cc h;
      bit_map = cc h;
      bit_map_approximate = flag_text-injective e.bit_map_approximate f.bit_map_approximate (cc h);
      bit_map_logical_axes =
          flag_text-injective e.bit_map_logical_axes f.bit_map_logical_axes (cc h);
      port_mapping_constant =
          flag_text-injective e.port_mapping_constant f.port_mapping_constant (cc h);
      port_mapping_unresolved =
          flag_text-injective e.port_mapping_unresolved f.port_mapping_unresolved (cc h);
      lhs_signals = left;
      rhs_signals = right;
    }

-- Endpoints with the same key agree in their kind, path, file and line, the direction, the range and
-- the text of the assignment, the bits and how they are to be read, the marks of a port mapping, and
-- in the names on both sides.
pub endpoint_key-SameIdentity :
    (db : Pools) (e f : EndpointRecord)
    → endpoint_key db e ≡ endpoint_key db f
    → SameIdentity db e f
unfolding endpoint_key
endpoint_key-SameIdentity db e f h =
    key_fields-SameIdentity db e f (join_fields-injective (key_fields db e) (key_fields db f) h)
