-- ===== src/Trace/Serve/Session/Responses.antt =====
-- Each line that the serve loop reads is answered by one response.
use auto_waveform_debugger.Base.{
  ℕ, suc, ◌≡◌, refl, sym, Bool, true, false, not, ◌&&◌, ◌||◌, Option, none, some, List, [], ◌∷◌,
  ◌++◌, Str, codes, arith, if◌then◌else◌, Bool-cases, inl, inr,
}
use auto_waveform_debugger.Base.Text.{starts_with}
use mathlib.Core.Path.{subst}
use mathlib.Core.List.{append_assoc}
use auto_waveform_debugger.Trace.Cli.{
  Parsed, ok, exit_success, error, WithDb, parse_find_args, parse_hier_args,
  parse_where_instance_args,
}
use auto_waveform_debugger.Trace.Serve.Split.{split_command_line}
use auto_waveform_debugger.Trace.Serve.Session.{
  Session, Services, Opened, opened, failed, thrown, Output, out, err, help, summary, lines, hier,
  instance_reply, done, Reply, open_result, open_db, open_path, open_chosen, ran, when_ok, query,
  reload, query_open, dispatch, check_mapping, is_quit, handle_words, handle_line, serve_lines,
  help_topic, status_of,
}

abbrev pub is_done : Output → Bool
is_done done = true
is_done _ = false

abbrev pub has_done : List Output → Bool
has_done [] = false
has_done (o ∷ os) = is_done o || has_done os

-- So many responses one after the other: each ends with its only `done`.
pub data Responses : ℕ → List Output → Type 0 where
  end : Responses 0 []
  next :
      {n : ℕ} {rest : List Output} (response : List Output)
      → has_done response ≡ false
      → Responses n rest
      → Responses (suc n) (response ++ done ∷ rest)

abbrev OneResponse : Reply → Type 0
OneResponse r =
    (response : List Output) × (has_done response ≡ false) × (r.0 ≡ response ++ done ∷ [])

-- A property of both branches holds of the whole.
pub if_intro {ℓ κ} :
    {A : Type ℓ} (P : A → Type κ) (b : Bool) (x y : A) → P x → P y → P (if b then x else y)
if_intro P true x y p q = p
if_intro P false x y p q = q

open_result-OneResponse :
    (o : Opened) (session : Option Session) → OneResponse (open_result o session)
open_result-OneResponse (opened s) session = (summary s ∷ [], refl, refl)
open_result-OneResponse (failed message) session = (err message ∷ [], refl, refl)
open_result-OneResponse (thrown what) session = (err _ ∷ [], refl, refl)

abbrev Quiet : Option Str × List Output → Type 0
Quiet p = has_done p.1 ≡ false

open_path-Quiet : (args : List Str) (path : Option Str) → Quiet (open_path args path)
unfolding open_path
open_path-Quiet [] path = refl
open_path-Quiet (arg ∷ []) path = ground arith
open_path-Quiet (arg ∷ value ∷ args) path =
    ground (arith, open_path-Quiet args (some value), open_path-Quiet (value ∷ args) (some arg))

has_done-append : (xs ys : List Output) → has_done (xs ++ ys) ≡ (has_done xs || has_done ys)
has_done-append [] ys = refl
has_done-append (x ∷ xs) ys = ground (arith, has_done-append xs ys)

open_chosen-OneResponse :
    (services : Services) (args : List Str) (session : Option Session)
    (p : Option Str × List Output)
    → Quiet p
    → OneResponse (open_chosen services args session p)
unfolding open_db
open_chosen-OneResponse services [] session (none, messages) q = (
  messages ++ err (codes "Missing DB path") ∷ [],
  ground (arith, has_done-append messages (err (codes "Missing DB path") ∷ [])),
  sym (append_assoc messages (err (codes "Missing DB path") ∷ []) (done ∷ [])),
)
open_chosen-OneResponse services (arg ∷ args) session (none, messages) q = (messages, q, refl)
open_chosen-OneResponse services args session (some path, messages) q =
    open_result-OneResponse (services.open_session path) session

ran-OneResponse : (r : Session × (Option (List Str) × Str)) → OneResponse (ran r)
ran-OneResponse (session, (some written, what)) = (lines written ∷ [], refl, refl)
ran-OneResponse (session, (none, what)) = (err _ ∷ [], refl, refl)

when_ok-OneResponse {ℓ} :
    {A : Type ℓ} (name : Str) (session : Session) (parsed : Parsed (WithDb A)) (run : A → Reply)
    → ((opts : A) → OneResponse (run opts))
    → OneResponse (when_ok name session parsed run)
when_ok-OneResponse name session (ok a) run h = h a.opts
when_ok-OneResponse name session exit_success run h = (help name ∷ [], refl, refl)
when_ok-OneResponse name session (error message) run h = (err message ∷ [], refl, refl)

query-OneResponse :
    (services : Services) (cmd : Str) (args : List Str) (session : Session)
    → OneResponse (query services cmd args session)
unfolding query
query-OneResponse services cmd args session =
    if_intro OneResponse _ _ _ (ran-OneResponse (services.trace args session)) (
      if_intro OneResponse _ _ _
        (when_ok-OneResponse cmd session (parse_find_args services.compile args false none false) _
          (λ opts. ran-OneResponse (services.find opts session)))
        (if_intro OneResponse _ _ _
          (when_ok-OneResponse cmd session (parse_hier_args args false none false) _
            (λ opts. (hier _ ∷ [], refl, refl)))
          (if_intro OneResponse _ _ _
            (when_ok-OneResponse cmd session (parse_where_instance_args args false none false) _
              (λ opts. (instance_reply _ ∷ [], refl, refl)))
            (err _ ∷ [], refl, refl))))

help_topic-not_done : (args : List Str) → is_done (help_topic args) ≡ false
help_topic-not_done [] = refl
help_topic-not_done (topic ∷ args) = ground arith

status_of-not_done : (session : Option Session) → is_done (status_of session) ≡ false
status_of-not_done none = refl
status_of-not_done (some s) = refl

single :
    (o : Output) (session : Option Session)
    → is_done o ≡ false
    → OneResponse (o ∷ done ∷ [], session)
single o session h = (o ∷ [], ground arith, refl)

reload-OneResponse :
    (services : Services) (session : Option Session) → OneResponse (reload services session)
unfolding open_db
reload-OneResponse services none = (err _ ∷ [], refl, refl)
reload-OneResponse services (some s) =
    open_result-OneResponse (services.open_session s.db_path) (some s)

query_open-OneResponse :
    (services : Services) (cmd : Str) (args : List Str) (session : Option Session)
    → OneResponse (query_open services cmd args session)
query_open-OneResponse services cmd args none = (err _ ∷ [], refl, refl)
query_open-OneResponse services cmd args (some s) = query-OneResponse services cmd args s

dispatch-OneResponse :
    (services : Services) (cmd : Str) (args : List Str) (session : Option Session)
    → OneResponse (dispatch services cmd args session)
unfolding dispatch
dispatch-OneResponse services cmd args session =
    if_intro OneResponse _ _ _ (single _ session (help_topic-not_done args)) (
      if_intro OneResponse _ _ _ (single _ session (status_of-not_done session)) (
        if_intro OneResponse _ _ _ (out _ ∷ [], refl, refl)
          (if_intro OneResponse _ _ _ (reload-OneResponse services session) (
            if_intro OneResponse _ _ _
              (open_chosen-OneResponse services args session (open_path args none)
                (open_path-Quiet args none))
              (query_open-OneResponse services cmd args session)))))

check_mapping-OneResponse :
    (services : Services) (cmd : Str) (args : List Str) (session : Option Session)
    → OneResponse (check_mapping services cmd args session)
unfolding check_mapping
check_mapping-OneResponse services cmd args none = dispatch-OneResponse services cmd args none
check_mapping-OneResponse services cmd args (some s) =
    if_intro OneResponse _ _ _ (err _ ∷ [], refl, refl)
      (dispatch-OneResponse services cmd args (some s))

-- The words of a line that ends the session.
abbrev pub quits : Option (List Str) → Bool
quits none = false
quits (some []) = false
quits (some (cmd ∷ args)) = not (starts_with (codes "#") cmd) && is_quit cmd

handle_words-OneResponse :
    (services : Services) (words : Option (List Str)) (session : Option Session)
    → OneResponse (handle_words services words session).0
      × ((handle_words services words session).1 ≡ not (quits words))
handle_words-OneResponse services none session = ((err _ ∷ [], refl, refl), refl)
handle_words-OneResponse services (some []) session = (([], refl, refl), refl)
handle_words-OneResponse services (some (cmd ∷ args)) session =
    elim (Bool-cases (starts_with (codes "#") cmd)) [
      | inl comment ↦ rw comment (([], refl, refl), refl)
      | inr command ↦ rw command (elim (Bool-cases (is_quit cmd)) [
        | inl quit ↦ rw quit ((out _ ∷ [], refl, refl), refl)
        | inr other ↦ rw other (check_mapping-OneResponse services cmd args session, refl)
      ])
    ]

-- The lines that are read: up to and with the first that quits.
unfoldable pub lines_read : List (Services × Str) → ℕ
lines_read [] = 0
lines_read ((services, line) ∷ input) =
    let rest = lines_read input in suc (if quits (split_command_line line) then 0 else rest)

-- On any input and in any state of the session, the outputs are as many responses as lines are read,
-- up to and with the first that quits: each ends with its only <<END>>, and nothing comes behind.
pub serve_lines-Responses :
    (input : List (Services × Str)) (session : Option Session)
    → Responses (lines_read input) (serve_lines input session)
unfolding serve_lines lines_read handle_line
serve_lines-Responses [] session = end
serve_lines-Responses ((services, line) ∷ input) session =
    let reply : Reply × Bool = handle_words services (split_command_line line) session in
    let ((response, quiet, shape), goes_on) =
      handle_words-OneResponse services (split_command_line line) session in
    let rest = serve_lines-Responses input reply.0.1 in
    elim (Bool-cases (quits (split_command_line line))) [
      | inl quit ↦ rw (goes_on, quit, shape) (next response quiet end)
      | inr other ↦
          rw (goes_on, other, shape)
            (subst (Responses (suc (lines_read input)))
              (sym (append_assoc response (done ∷ []) (serve_lines input reply.0.1)))
              (next response quiet rest))
    ]
