-- ===== src/Trace/Serve/Session/Fresh.antt =====
-- When the serve loop answers a query.
use auto_waveform_debugger.Base.{
  ◌≡◌, refl, Bool, true, false, ◌||◌, Option, none, some, List, [], ◌∷◌, ◌++◌, Str, codes, arith,
  Bool-cases, inl, inr, str_eq, str_eq_iff,
}
use auto_waveform_debugger.Base.Text.{starts_with}
use auto_waveform_debugger.Trace.Serve.Split.{split_command_line}
use auto_waveform_debugger.Trace.Serve.Session.{
  Session, Services, Opened, opened, failed, thrown, Output, err, lines, hier, instance_reply, done,
  Reply, open_result, open_db, open_path, open_chosen, reload, dispatch, check_mapping, is_quit,
  is_stale, handle_words, handle_line, help_topic,
}

-- The output of a query.
abbrev pub is_answer : Output → Bool
is_answer (lines l) = true
is_answer (hier r) = true
is_answer (instance_reply r) = true
is_answer _ = false

abbrev pub has_answer : List Output → Bool
has_answer [] = false
has_answer (o ∷ os) = is_answer o || has_answer os

abbrev NoAnswer : Reply → Type 0
NoAnswer r = has_answer r.0 ≡ false

open_result-NoAnswer : (o : Opened) (session : Option Session) → NoAnswer (open_result o session)
open_result-NoAnswer (opened s) session = refl
open_result-NoAnswer (failed message) session = refl
open_result-NoAnswer (thrown what) session = refl

abbrev Silent : Option Str × List Output → Type 0
Silent p = has_answer p.1 ≡ false

open_path-Silent : (args : List Str) (path : Option Str) → Silent (open_path args path)
unfolding open_path
open_path-Silent [] path = refl
open_path-Silent (arg ∷ []) path = ground arith
open_path-Silent (arg ∷ value ∷ args) path =
    ground (arith, open_path-Silent args (some value), open_path-Silent (value ∷ args) (some arg))

has_answer-append : (xs ys : List Output) → has_answer (xs ++ ys) ≡ (has_answer xs || has_answer ys)
has_answer-append [] ys = refl
has_answer-append (x ∷ xs) ys = ground (arith, has_answer-append xs ys)

open_chosen-NoAnswer :
    (services : Services) (args : List Str) (session : Option Session)
    (p : Option Str × List Output)
    → Silent p
    → NoAnswer (open_chosen services args session p)
unfolding open_db
open_chosen-NoAnswer services [] session (none, messages) q =
    ground (arith, has_answer-append messages (err (codes "Missing DB path") ∷ done ∷ []))
open_chosen-NoAnswer services (arg ∷ args) session (none, messages) q =
    ground (arith, has_answer-append messages (done ∷ []))
open_chosen-NoAnswer services args session (some path, messages) q =
    open_result-NoAnswer (services.open_session path) session

reload-NoAnswer :
    (services : Services) (session : Option Session) → NoAnswer (reload services session)
unfolding open_db
reload-NoAnswer services none = refl
reload-NoAnswer services (some s) = open_result-NoAnswer (services.open_session s.db_path) (some s)

help_topic-not_answer : (args : List Str) → is_answer (help_topic args) ≡ false
help_topic-not_answer [] = refl
help_topic-not_answer (topic ∷ args) = ground arith

-- Without a session, and at the commands that change it, nothing is answered.
dispatch-none-NoAnswer :
    (services : Services) (cmd : Str) (args : List Str) → NoAnswer (dispatch services cmd args none)
unfolding dispatch
dispatch-none-NoAnswer services cmd args = ground (
  arith,
  help_topic-not_answer args,
  open_chosen-NoAnswer services args none (open_path args none) (open_path-Silent args none),
)

dispatch_change-NoAnswer :
    (services : Services) (cmd : Str) (args : List Str) (session : Option Session)
    → (str_eq cmd (codes "reload") || str_eq cmd (codes "open")) ≡ true
    → NoAnswer (dispatch services cmd args session)
unfolding dispatch
dispatch_change-NoAnswer services cmd args session h =
    elim (Bool-cases (str_eq cmd (codes "reload"))) [
      | inl e ↦ rw ((str_eq_iff cmd (codes "reload")).0 e) (reload-NoAnswer services session)
      | inr n ↦
          let e : str_eq cmd (codes "open") ≡ true = ground arith in
          rw ((str_eq_iff cmd (codes "open")).0 e) (
            open_chosen-NoAnswer services args session (open_path args none)
              (open_path-Silent args none))
    ]

abbrev pub AnsweredFresh : Services → Option Session → Reply → Type 0
AnsweredFresh services session r =
    has_answer r.0 ≡ true → (s : Session) × (session ≡ some s) × (is_stale services s ≡ false)

check_mapping-AnsweredFresh :
    (services : Services) (cmd : Str) (args : List Str) (session : Option Session)
    → AnsweredFresh services session (check_mapping services cmd args session)
unfolding check_mapping
check_mapping-AnsweredFresh services cmd args none =
    λ k. cc (k, dispatch-none-NoAnswer services cmd args)
check_mapping-AnsweredFresh services cmd args (some s) =
    elim (Bool-cases (str_eq cmd (codes "reload") || str_eq cmd (codes "open"))) [
      | inl change ↦
          rw change (λ k. cc (k, dispatch_change-NoAnswer services cmd args (some s) change))
      | inr other ↦ elim (Bool-cases (is_stale services s)) [
        | inl stale ↦ rw (other, stale) (λ k. cc k)
        | inr fresh ↦ rw (other, fresh) (λ k. (s, refl, fresh))
      ]
    ]

handle_words-AnsweredFresh :
    (services : Services) (words : Option (List Str)) (session : Option Session)
    → AnsweredFresh services session (handle_words services words session).0
handle_words-AnsweredFresh services none session = λ k. cc k
handle_words-AnsweredFresh services (some []) session = λ k. cc k
handle_words-AnsweredFresh services (some (cmd ∷ args)) session =
    elim (Bool-cases (starts_with (codes "#") cmd)) [
      | inl comment ↦ rw comment (λ k. cc k)
      | inr command ↦ rw command (elim (Bool-cases (is_quit cmd)) [
        | inl quit ↦ rw quit (λ k. cc k)
        | inr other ↦ rw other (check_mapping-AnsweredFresh services cmd args session)
      ])
    ]

-- If a line is answered with the output of a query, a session was open before it, and the file that
-- the session has mapped had still the size that was mapped.
pub handle_line-AnsweredFresh :
    (services : Services) (line : Str) (session : Option Session)
    → AnsweredFresh services session (handle_line services line session).0
unfolding handle_line
handle_line-AnsweredFresh services line session =
    handle_words-AnsweredFresh services (split_command_line line) session
