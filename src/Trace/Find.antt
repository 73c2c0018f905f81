-- ===== src/Trace/Find.antt =====
-- The find query: query/FindQuery.cc, and TopSuggestions of db/GraphDb.cc. The names of the signals
-- are those that BuildSessionSignalNames collects, in the order of their numbers. What is written on
-- std::cout is a text.
pub mod Scan
pub mod Literal
pub mod Matches
use mathlib.Core.Option
use auto_waveform_debugger.Base.{
  ℕ, zero, suc, ◌+◌, ◌-◌, max, Bool, true, false, not, ◌&&◌, ◌||◌, Option, none, some, List, [],
  ◌∷◌, ◌++◌, Str, codes, is_empty, length, map, take, get_elem?, if◌then◌else◌, ltb, leb, ◌==◌,
  max_u64,
}
use auto_waveform_debugger.Base.Text.{str_lt, starts_with, has_char}
use auto_waveform_debugger.Trace.Number.{to_string}
use auto_waveform_debugger.Trace.Json.{json_escape}
use auto_waveform_debugger.Trace.TopK.{push, is_full, worst?, parallel_top_k}
use auto_waveform_debugger.Trace.Distance.{edit_distance, bounded_edit_distance}
use auto_waveform_debugger.Trace.Hier.{OutputFormat, text, json}
use auto_waveform_debugger.Trace.Cli.{FindOptions}

-- The set kEscapable.
abbrev pub escapable : ℕ → Bool
escapable c = has_char c (codes ".^$*+?()[]{}|/\\")

-- A character at which the analysis gives up.
abbrev pub is_group : ℕ → Bool
is_group c = has_char c (codes "|()[]{}")

-- Any-char, an assertion, or a quantifier.
abbrev pub is_free : ℕ → Bool
is_free c = has_char c (codes ".^$*+?")

abbrev pub is_quantifier : ℕ → Bool
is_quantifier c = c == b'*' || (c == b'+' || c == b'?')

abbrev pub longer : Str → Str → Str
longer best run = if ltb (length best) (length run) then run else best

-- `after` points behind a quantifier, and behind the modifier `?` if there is one.
abbrev pub stacked_at : Str → Bool
stacked_at [] = false
stacked_at (c ∷ s) = is_quantifier c || c == b'{'

unfoldable pub stacked : Str → Bool
stacked [] = false
stacked (c ∷ s) = if c == b'?' then stacked_at s else stacked_at (c ∷ s)

-- The end of the loop's body: the literal `lit`, with `rest` behind it. The loop goes on by `next`.
unfoldable pub after_literal : (Str → Str → Option Str) → ℕ → Str → Str → Str → Option Str
unfolding stacked
after_literal next lit [] best run = next best (run ++ lit ∷ [])
after_literal next lit (q ∷ rest) best run =
    if is_quantifier q && stacked rest
    then none
    else if q == b'*' || q == b'?'
    then next (longer best run) []
    else if q == b'+'
    then next (longer best (run ++ lit ∷ [])) []
    else next best (run ++ lit ∷ [])

-- The loop of RequiredLiteral, with none where it returns the empty text. `escaped` tells that the
-- character before is the backslash of an escape.
unfoldable pub required_from : Str → Bool → Str → Str → Option Str
unfolding after_literal
required_from [] true best run = none
required_from [] false best run = some (longer best run)
required_from (c ∷ rest) true best run =
    if escapable c then after_literal (required_from rest false) c rest best run else none
required_from (c ∷ rest) false best run =
    if is_group c
    then none
    else if c == b'\\'
    then required_from rest true best run
    else if is_free c
    then required_from rest false (longer best run) []
    else after_literal (required_from rest false) c rest best run

abbrev pub or_empty : Option Str → Str
or_empty none = []
or_empty (some s) = s

unfoldable pub required_literal : Str → Str
unfolding required_from
required_literal pattern = or_empty (required_from pattern false [] [])

-- s.find(part) != npos
abbrev pub has_text : Str → Str → Bool
has_text part [] = is_empty part
has_text part (c ∷ s) = starts_with part (c ∷ s) || has_text part s

-- std::regex_search of a pattern in a text.
abbrev pub RegexSearch : Type 0
RegexSearch = Str → Str → Bool

-- Whether a name is emitted; `literal` is what the pattern requires.
unfoldable pub name_matches : RegexSearch → FindOptions → Str → Str → Bool
name_matches regex_search opts literal name =
    if opts.regex_mode
    then (is_empty literal || has_text literal name) && regex_search opts.query name
    else has_text opts.query name

-- The loop over the indices from b on, for m of them.
unfoldable pub scan_names {ℓ} :
    {A : Type ℓ} → (Str → List A → List A) → List Str → ℕ → ℕ → List A → List A
scan_names visit names b zero out = out
scan_names visit names b (suc m) out =
    scan_names visit names (b + 1) m
      (elim (get_elem? names b) [ none ↦ out | some name ↦ visit name out ])

-- A machine: the number of its threads, and which worker takes the next chunk.
pub record Machine : Type 0 where
  pub hardware : ℕ
  pub schedule : List ℕ

unfoldable pub find_matches : Machine → RegexSearch → List Str → FindOptions → Option (List Str)
unfolding name_matches required_literal scan_names
find_matches machine regex_search names opts =
    let literal = if opts.regex_mode then required_literal opts.query else [] in
    parallel_top_k str_lt machine.hardware machine.schedule (length names) opts.limit
      λ begin finish.
        scan_names
          (λ name out.
            if name_matches regex_search opts literal name
            then push str_lt opts.limit name out
            else out)
          names begin (finish - begin)

abbrev pub Scored : Type 0
Scored = ℕ × Str

unfoldable pub scored_less : Scored → Scored → Bool
scored_less (d, s) (e, t) = if d == e then str_lt s t else ltb d e

abbrev pub distance_bound : ℕ → List Scored → ℕ
distance_bound keep [] = if is_full {A = Scored} keep [] then 0 else max_u64
distance_bound keep ((d, s) ∷ out) = if is_full keep ((d, s) ∷ out) then d else max_u64

unfoldable pub score : Str → ℕ → Str → List Scored → List Scored
score needle keep name out =
    let bound = distance_bound keep out in
    let d = bounded_edit_distance name needle bound in
    if leb d bound then push scored_less keep (d, name) out else out

abbrev pub names_of : Option (List Scored) → Option (List Str)
names_of none = none
names_of (some top) = some (map (λ p. p.1) top)

unfoldable pub top_suggestions : Machine → List Str → Str → ℕ → Option (List Str)
unfolding score scan_names
top_suggestions machine names needle limit =
    let keep = max limit 1 in
    names_of (
      parallel_top_k scored_less machine.hardware machine.schedule (length names) keep
        λ begin finish. scan_names (score needle keep) names begin (finish - begin))

-- What the command returns and writes.
pub record FindReply : Type 0 where
  pub status : ℕ
  pub matches : List Str
  pub suggestions : List Str
  pub printed : Str

abbrev pub newline : Str
newline = 10 ∷ []

abbrev pub bool_text : Bool → Str
bool_text b = if b then codes "true" else codes "false"

-- Texts in quotes, with commas between them.
unfoldable pub json_texts : List Str → Str
json_texts [] = []
json_texts (s ∷ []) = b'"' ∷ (json_escape s ++ b'"' ∷ [])
json_texts (s ∷ t ∷ ss) = b'"' ∷ (json_escape s ++ b'"' ∷ b',' ∷ json_texts (t ∷ ss))

unfoldable pub lines : Str → List Str → Str
lines before [] = []
lines before (s ∷ ss) = before ++ (s ++ (newline ++ lines before ss))

unfoldable pub print_json : FindOptions → List Str → List Str → Str
unfolding json_texts json_escape to_string
print_json opts matches suggestions =
    codes "{\"query\":\""
    ++ (json_escape opts.query
        ++ (codes "\",\"regex\":"
            ++ (bool_text opts.regex_mode
                ++ (codes ",\"count\":"
                    ++ (to_string (length matches)
                        ++ (codes ",\"matches\":["
                            ++ (json_texts matches
                                ++ (codes "],\"suggestions\":["
                                    ++ (json_texts suggestions ++ codes "]}\n")))))))))

unfoldable pub print_text : FindOptions → List Str → List Str → Str
unfolding lines to_string
print_text opts matches suggestions =
    codes "query: "
    ++ (opts.query
        ++ (codes "\nregex: "
            ++ (bool_text opts.regex_mode
                ++ (codes "\ncount: "
                    ++ (to_string (length matches)
                        ++ (newline
                            ++ (lines (codes "signal ") matches
                                ++ (if is_empty matches && not (is_empty suggestions)
                                    then codes "suggestions:\n" ++ lines (codes "  ") suggestions
                                    else []))))))))

abbrev pub print_find : FindOptions → List Str → List Str → Str
print_find opts matches suggestions = elim opts.format [
  | json ↦ print_json opts matches suggestions
  | text ↦ print_text opts matches suggestions
]

abbrev pub reply_of : FindOptions → List Str → List Str → FindReply
reply_of opts matches suggestions = record {
  status = if is_empty matches then 2 else 0;
  matches = matches;
  suggestions = suggestions;
  printed = print_find opts matches suggestions;
}

-- Suggestions are searched only where nothing matches.
abbrev pub suggest : Option (List Str) → FindOptions → Option (List Str) → Option FindReply
suggest suggestions opts none = none
suggest suggestions opts (some []) = Option.map (reply_of opts []) suggestions
suggest suggestions opts (some (m ∷ ms)) = some (reply_of opts (m ∷ ms) [])

unfoldable pub run_find_with_session :
    Machine → RegexSearch → List Str → FindOptions → Option FindReply
run_find_with_session machine regex_search names opts =
    suggest (top_suggestions machine names opts.query opts.limit) opts
      (find_matches machine regex_search names opts)
