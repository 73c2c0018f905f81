-- ===== src/Tests/Find.antt =====
-- Runs of the find query and of the selection of the least.
use mathlib.Core.Option
use mathlib.Core.Path.{subst}
use auto_waveform_debugger.Base.{
  ℕ, ◌+◌, ◌-◌, ◌≡◌, refl, ap, true, ◌&&◌, some, List, [], ◌∷◌, ◌++◌, Str, codes, str_eq, str_eq_iff,
  take, ltb, arith, Bool-cases, inl, inr, is_empty, if◌then◌else◌,
}
use auto_waveform_debugger.Base.Text.{starts_with}
use auto_waveform_debugger.Trace.Hier.{text}
use auto_waveform_debugger.Trace.Cli.{FindOptions}
use auto_waveform_debugger.Trace.Json.{json_escape}
use auto_waveform_debugger.Trace.Json.RoundTrip.{read_string, plain, read_string-json_escape}
use auto_waveform_debugger.Trace.TopK.{
  thread_count, sort_by, push_all, parallel_top_k, insert_all, merged_items, push,
}
use auto_waveform_debugger.Trace.TopK.Sorted.{IsOrder}
use auto_waveform_debugger.Trace.TopK.Workers.{emits, parallel_top_k_lem}
use auto_waveform_debugger.Trace.Find.{
  Machine, RegexSearch, required_literal, has_text, FindReply, reply_of, run_find_with_session,
  find_matches, print_text,
}
use auto_waveform_debugger.Trace.Find.Literal.{Piece, char, anything, Spells, pieces, FindsPieces}
use auto_waveform_debugger.Trace.Find.Matches.{
  Covers, found_names, nearest_names, run_find_with_session_lem,
}

read_string-json_escape_example :
    read_string plain (json_escape (codes "a\"\\\n" ++ 1 ∷ []) ++ b'"' ∷ codes ",")
    ≡ some (codes "a\"\\\n" ++ 1 ∷ [], codes ",")
read_string-json_escape_example = read_string-json_escape (codes "a\"\\\n" ++ 1 ∷ []) (codes ",")

escape_run : json_escape (codes "a\n" ++ 1 ∷ []) ≡ codes "a\\n\\u0001"
unfolding json_escape
escape_run = refl

literal_run :
    (required_literal (codes "a.*bcd+e") ≡ codes "bcd")
    × (required_literal (codes "ab(c)") ≡ [])
    × (required_literal (codes "x\\.y") ≡ codes "x.y")
unfolding required_literal
literal_run = (refl, refl, refl)

ltb-IsOrder : IsOrder ltb
ltb-IsOrder = record {
  asym = λ x y h. ground arith;
  trans = λ x y z h k. ground arith;
  total = λ x y h k. ground arith;
}

-- The numbers of a scan from the largest down.
abbrev falling : ℕ → List ℕ
falling i = (50000 - i) ∷ []

falling_scan : ℕ → ℕ → List ℕ → List ℕ
falling_scan b e items = push_all ltb 3 (emits falling b (e - b)) items

falling_scan_lem :
    (b m : ℕ) (items : List ℕ)
    → falling_scan b (b + m) items ≡ push_all ltb 3 (emits falling b m) items
unfolding falling_scan
falling_scan_lem b m items =
    let width : b + m - b ≡ m = omega arith in
    ap (λ c. push_all ltb 3 (emits falling b c) items) width

two_workers : thread_count 2 40000 ≡ 2
unfolding thread_count
two_workers = refl

-- Two workers on five chunks.
parallel_top_k_lem_example :
    parallel_top_k ltb 2 (0 ∷ 1 ∷ 1 ∷ 0 ∷ 1 ∷ []) 40000 3 falling_scan
    ≡ some (take 3 (sort_by ltb (emits falling 0 40000)))
parallel_top_k_lem_example =
    parallel_top_k_lem ltb ltb-IsOrder 3 40000 falling_scan falling falling_scan_lem 2
      (0 ∷ 1 ∷ 1 ∷ 0 ∷ 1 ∷ []) (rw two_workers (omega arith)) (omega arith)

starts_with-split : (part s : Str) → starts_with part s ≡ true → (v : Str) × (s ≡ part ++ v)
starts_with-split [] s h = (s, refl)
starts_with-split (p ∷ ps) [] h = cc
starts_with-split (p ∷ ps) (c ∷ s) h =
    let (v, e) = starts_with-split ps s (ground arith) in
    let same : c ≡ p = ground arith in (v, rw (same, e) refl)

has_text-split : (part s : Str) → has_text part s ≡ true → (u v : Str) × (s ≡ u ++ (part ++ v))
has_text-split [] s h = ([], s, refl)
has_text-split (p ∷ ps) [] h = cc
has_text-split (p ∷ ps) (c ∷ s) h = elim (Bool-cases (starts_with (p ∷ ps) (c ∷ s))) [
  | inl here ↦ let (v, e) = starts_with-split (p ∷ ps) (c ∷ s) here in ([], v, e)
  | inr behind ↦
      let (u, v, e) = has_text-split (p ∷ ps) s (rw behind at h) in (c ∷ u, v, ap (λ t. c ∷ t) e)
]

-- A search that knows one pattern.
abbrev finds_clk : RegexSearch
finds_clk pattern s = str_eq pattern (codes "c.k") && has_text (codes "clk") s

finds_clk-FindsPieces : FindsPieces finds_clk
unfolding pieces
finds_clk-FindsPieces = record {
  finds = λ pattern s h ps e.
      let known : pattern ≡ codes "c.k" = (str_eq_iff pattern (codes "c.k")).0 (ground arith) in
      let (u, v, split) = has_text-split (codes "clk") s (ground arith) in
      let parsed : char b'c' ∷ anything ∷ char b'k' ∷ [] ≡ ps = ground (arith, rw known at e) in
      (
        u,
        codes "clk",
        v,
        split,
        subst (λ (qs : List Piece). Spells qs (codes "clk")) parsed
            (codes "lk", refl, (codes "l", codes "k", refl, ([], refl, refl))),
      );
}

abbrev signal_names : List Str
signal_names = codes "top.rst" ∷ codes "top.u.clk" ∷ codes "top.clk" ∷ []

abbrev machine : Machine
machine = record { hardware = 4; schedule = 0 ∷ [] }

abbrev clk_query : FindOptions
clk_query = record { query = codes "c.k"; regex_mode = true; limit = 20; format = text }

Covers-signals : Covers machine 3
unfolding thread_count
Covers-signals = record { known = omega arith; enough = omega arith }

run_find_with_session_lem_example :
    run_find_with_session machine finds_clk signal_names clk_query
    ≡ some (
        reply_of clk_query (found_names finds_clk signal_names clk_query) (
          if is_empty (found_names finds_clk signal_names clk_query)
          then nearest_names signal_names (codes "c.k") 20
          else []))
run_find_with_session_lem_example =
    run_find_with_session_lem machine finds_clk signal_names clk_query finds_clk-FindsPieces
      Covers-signals (omega arith)

clk_found : found_names finds_clk signal_names clk_query ≡ codes "top.clk" ∷ codes "top.u.clk" ∷ []
unfolding insert_all
clk_found = refl

clk_printed :
    Option.map
      (λ (r : FindReply). r.printed)
      (run_find_with_session machine finds_clk signal_names clk_query)
    ≡ some (codes "query: c.k\nregex: true\ncount: 2\nsignal top.clk\nsignal top.u.clk\n")
unfolding run_find_with_session find_matches parallel_top_k merged_items push thread_count
    insert_all print_text
clk_printed = refl
