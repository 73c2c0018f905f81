-- ===== src/Trace/Find/Matches.antt =====
-- What the find query returns: the first names, in order, that match; and the nearest names.
use mathlib.Core.Path.{subst}
use native.Mathlib.Decide.{dec_le}
use auto_waveform_debugger.Base.{
  ℕ, zero, suc, ◌+◌, ◌*◌, ◌≤◌, ◌<◌, max, ◌≡◌, refl, sym, ap, ◌∙◌, Bool, true, false, some, List, [],
  ◌∷◌, Str, is_empty, length, take, map, get_elem?, arith, All, Bool-cases, inl, inr, if◌then◌else◌,
  leb, max_u64,
}
use auto_waveform_debugger.Base.Text.{str_lt}
use auto_waveform_debugger.Trace.TopK.{sort_by, push, push_all, thread_count, chunk_size}
use auto_waveform_debugger.Trace.TopK.Workers.{parallel_top_k_lem}
use auto_waveform_debugger.Trace.Distance.{edit_distance, bounded_edit_distance}
use auto_waveform_debugger.Trace.Distance.Levenshtein.{edit_distance-le}
use auto_waveform_debugger.Trace.Distance.Bounded.{bounded_edit_distance-AgreeUpTo}
use auto_waveform_debugger.Trace.Cli.{FindOptions}
use auto_waveform_debugger.Trace.Find.{
  Machine, RegexSearch, name_matches, required_literal, has_text, find_matches, Scored, scored_less,
  distance_bound, score, names_of, top_suggestions, reply_of, suggest, run_find_with_session,
}
use auto_waveform_debugger.Trace.Find.Literal.{FindsPieces, prefilter_lem}
use auto_waveform_debugger.Trace.Find.Scan.{
  emit_all, emit_at, emits_lem, scan_range_lem, str_lt-IsOrder, scored_less-IsOrder,
}

-- The names that pass a test, in their order.
abbrev pub filter_by : (Str → Bool) → List Str → List Str
filter_by test [] = []
filter_by test (name ∷ names) =
    if test name then name ∷ filter_by test names else filter_by test names

-- What the query asks of a name.
abbrev pub wanted : RegexSearch → FindOptions → Str → Bool
wanted regex_search opts name =
    if opts.regex_mode then regex_search opts.query name else has_text opts.query name

-- The schedule names workers that exist, and is long enough for all chunks.
pub record Covers (machine : Machine) (n : ℕ) : Type 0 where
  pub known : All (λ t. t < thread_count machine.hardware n) machine.schedule
  pub enough : n ≤ length machine.schedule * chunk_size

abbrev emit_if : (Str → Bool) → Str → List Str
emit_if test name = if test name then name ∷ [] else []

emit_all-filter_by :
    (test : Str → Bool) (names : List Str) → emit_all (emit_if test) names ≡ filter_by test names
emit_all-filter_by test [] = refl
emit_all-filter_by test (name ∷ names) = elim (Bool-cases (test name)) [
  | inl e ↦ rw e (ap (λ t. name ∷ t) (emit_all-filter_by test names))
  | inr e ↦ rw e (emit_all-filter_by test names)
]

name_matches-wanted :
    (regex_search : RegexSearch) (opts : FindOptions) (name : Str)
    → FindsPieces regex_search
    → name_matches regex_search opts
        (if opts.regex_mode then required_literal opts.query else [])
        name
      ≡ wanted regex_search opts name
unfolding name_matches
name_matches-wanted regex_search opts name regex = elim (Bool-cases opts.regex_mode) [
  | inl e ↦ simp e (prefilter_lem regex_search opts.query name regex)
  | inr e ↦ simp e
]

push_if :
    (limit : ℕ) (test wants : Bool) (name : Str) (out : List Str)
    → test ≡ wants
    → (if test then push str_lt limit name out else out)
      ≡ push_all str_lt limit (if wants then name ∷ [] else []) out
push_if limit true wants name out e = rw (sym e) refl
push_if limit false wants name out e = rw (sym e) refl

-- For a schedule that covers the names, the query ends, and gives the first `limit` names, in order,
-- in which the pattern is found by std::regex_search, or of which the query is a part. The test for
-- the literal that a pattern requires changes nothing.
pub find_matches_lem :
    (machine : Machine) (regex_search : RegexSearch) (names : List Str) (opts : FindOptions)
    → FindsPieces regex_search
    → Covers machine (length names)
    → find_matches machine regex_search names opts
      ≡ some (take opts.limit (sort_by str_lt (filter_by (wanted regex_search opts) names)))
unfolding find_matches
find_matches_lem machine regex_search names opts regex covers =
    parallel_top_k_lem str_lt str_lt-IsOrder opts.limit (length names) _
      (emit_at (emit_if (wanted regex_search opts)) names)
      (scan_range_lem str_lt opts.limit _ (emit_if (wanted regex_search opts)) names
        (λ i name e out.
          push_if opts.limit _ _ name out (name_matches-wanted regex_search opts name regex)))
      machine.hardware machine.schedule covers.known covers.enough
    ∙ ap (λ t. some (take opts.limit (sort_by str_lt t)))
        (emits_lem (emit_if (wanted regex_search opts)) names
          ∙ emit_all-filter_by (wanted regex_search opts) names)

abbrev pub IsShort : Str → Str → Type 0
IsShort needle name = length name + length needle ≤ max_u64

abbrev pub scored_by : Str → Str → Scored
scored_by needle name = (edit_distance name needle, name)

-- A name that the bound rejects would not be kept.
push_far :
    (keep d : ℕ) (name : Str) (out : List Scored)
    → d ≤ max_u64
    → distance_bound keep out < d
    → push scored_less keep (d, name) out ≡ out
unfolding push scored_less
push_far keep d name [] short far = ground arith
push_far keep d name ((e, s) ∷ out) short far = ground arith

score-push :
    (needle : Str) (keep : ℕ) (name : Str) (out : List Scored)
    → IsShort needle name
    → score needle keep name out ≡ push scored_less keep (scored_by needle name) out
unfolding score
score-push needle keep name out short =
    let bound = distance_bound keep out in
    let d = edit_distance name needle in
    let (exact, above) = bounded_edit_distance-AgreeUpTo name needle bound in
    elim (dec_le d bound) [
      | yes near ↦ let kept : leb d bound ≡ true = ground arith in rw (exact near, kept) refl
      | no far ↦
          let beyond : bound < d = omega arith in
          let left_out : leb (bounded_edit_distance name needle bound) bound ≡ false =
            ground (arith, above beyond) in
          let d_short : d ≤ max_u64 = omega (arith, edit_distance-le name needle) in
          rw left_out (sym (push_far keep d name out d_short beyond))
    ]

get_elem?-All {κ} :
    (P : Str → Type κ) (names : List Str) (i : ℕ) (name : Str)
    → All P names
    → get_elem? names i ≡ some name
    → P name
get_elem?-All P [] i name h e = cc
get_elem?-All P (x ∷ names) zero name h e = let same : x ≡ name = cc in subst P same h.0
get_elem?-All P (x ∷ names) (suc i) name h e = get_elem?-All P names i name h.1 e

abbrev pub score_all : Str → List Str → List Scored
score_all needle [] = []
score_all needle (name ∷ names) = scored_by needle name ∷ score_all needle names

emit_all-score_all :
    (needle : Str) (names : List Str)
    → emit_all (λ name. scored_by needle name ∷ []) names ≡ score_all needle names
emit_all-score_all needle [] = refl
emit_all-score_all needle (name ∷ names) =
    ap (λ t. scored_by needle name ∷ t) (emit_all-score_all needle names)

-- For a schedule that covers the names, the suggestions are the names that are nearest to the text
-- by edit distance, in the order of the distance and then of the name; at least one is asked for.
pub top_suggestions_lem :
    (machine : Machine) (names : List Str) (needle : Str) (limit : ℕ)
    → All (IsShort needle) names
    → Covers machine (length names)
    → top_suggestions machine names needle limit
      ≡ some (map (λ p. p.1) (take (max limit 1) (sort_by scored_less (score_all needle names))))
unfolding top_suggestions
top_suggestions_lem machine names needle limit short covers =
    let emit = λ (name : Str). scored_by needle name ∷ [] in
    ap names_of (
      parallel_top_k_lem scored_less scored_less-IsOrder (max limit 1) (length names) _
        (emit_at emit names)
        (scan_range_lem scored_less (max limit 1) _ emit names (λ i name e out.
          score-push needle (max limit 1) name out
            (get_elem?-All (IsShort needle) names i name short e)))
        machine.hardware machine.schedule covers.known covers.enough
      ∙ ap (λ t. some (take (max limit 1) (sort_by scored_less t)))
          (emits_lem emit names ∙ emit_all-score_all needle names))

abbrev pub found_names : RegexSearch → List Str → FindOptions → List Str
found_names regex_search names opts =
    take opts.limit (sort_by str_lt (filter_by (wanted regex_search opts) names))

abbrev pub nearest_names : List Str → Str → ℕ → List Str
nearest_names names needle limit =
    map (λ p. p.1) (take (max limit 1) (sort_by scored_less (score_all needle names)))

suggest_lem :
    (nearest : List Str) (opts : FindOptions) (found : List Str)
    → suggest (some nearest) opts (some found)
      ≡ some (reply_of opts found (if is_empty found then nearest else []))
suggest_lem nearest opts [] = refl
suggest_lem nearest opts (m ∷ ms) = refl

-- For a schedule that covers the names, the command replies: with the first `limit` names, in order,
-- in which the pattern is found by std::regex_search, or of which the query is a part; where there
-- are none, with status 2 and the names that are nearest to the query by edit distance.
pub run_find_with_session_lem :
    (machine : Machine) (regex_search : RegexSearch) (names : List Str) (opts : FindOptions)
    → FindsPieces regex_search
    → Covers machine (length names)
    → All (IsShort opts.query) names
    → run_find_with_session machine regex_search names opts
      ≡ some (
          reply_of opts (found_names regex_search names opts) (
            if is_empty (found_names regex_search names opts)
            then nearest_names names opts.query opts.limit
            else []))
unfolding run_find_with_session
run_find_with_session_lem machine regex_search names opts regex covers short =
    rw
      (
        find_matches_lem machine regex_search names opts regex covers,
        top_suggestions_lem machine names opts.query opts.limit short covers,
      )
      (suggest_lem (nearest_names names opts.query opts.limit) opts
        (found_names regex_search names opts))
