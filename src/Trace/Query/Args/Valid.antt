-- ===== src/Trace/Query/Args/Valid.antt =====
-- What holds of the options that ParseTraceArgs accepts.
use mathlib.Core.Path.{subst}
use auto_waveform_debugger.Base.{
  ℕ, zero, suc, ◌≤◌, ◌≡◌, ◌≢◌, ◌⊎◌, refl, Bool, true, false, not, ◌&&◌, ◌||◌, Option, none, some,
  List, [], ◌∷◌, ◌++◌, Str, codes, str_eq, str_eq_iff, is_empty, is_some, if◌then◌else◌, arith,
  Bool-cases, Option-cases, inl, inr,
}
use auto_waveform_debugger.Trace.Hier.{OutputFormat}
use auto_waveform_debugger.Trace.Number.{parse_unsigned_cli_value}
use auto_waveform_debugger.Trace.Number.Integer.{ℤ, pos, negsuc}
use auto_waveform_debugger.Trace.Select.{Axis, parse_signal_query}
use auto_waveform_debugger.Trace.Cli.{
  Parsed, ok, exit_success, error, Argument, flag, option, finish, parse_args, WithDb, with_opts,
  lacks_db, check, parse_output_format, put_number, put_format, read_db,
}
use auto_waveform_debugger.Trace.Query.{TraceOptions}
use auto_waveform_debugger.Trace.Query.Args.{
  put_cone_level, stoll_text, read_regex, read_trace, with_query, check_trace, parse_trace_args,
  default_trace_options,
}

module _ {A : Type 0} (P : A → Type 0) where
  -- What an argument leads to, if the parse goes on or ends well.
  abbrev Keeps : Argument A → Type 0
  Keeps (flag a) = P a
  Keeps (option take_value) = (value : Str) (a : A) → take_value value ≡ ok a → P a
  Keeps (finish result) = (a : A) → result ≡ ok a → P a

  if-Keeps : (b : Bool) (x y : Argument A) → Keeps x → Keeps y → Keeps (if b then x else y)
  if-Keeps true x y h k = h
  if-Keeps false x y h k = k

  module _ (read : Str → A → Argument A)
      (keeps : (arg : Str) (a : A) → P a → Keeps (read arg a)) where
    one_argument :
        (arg : Str) (x : Argument A) (a' : A)
        → Keeps x
        → (elim x [
          | flag a ↦ ok a
          | option take_value ↦ error (codes "Missing value for " ++ arg)
          | finish result ↦ result
        ])
          ≡ ok a'
        → P a'
    one_argument arg (flag a) a' k h = subst P (cc) k
    one_argument arg (option take_value) a' k h = cc
    one_argument arg (finish result) a' k h = k a' h

    -- The parse goes on after an option, and after a flag.
    after_option :
        (args : List Str) (a' : A)
        → ((b : A) → P b → parse_args read args b ≡ ok a' → P a')
        → (r : Parsed A) → ((b : A) → r ≡ ok b → P b)
        → (elim r [
          | ok b ↦ parse_args read args b
          | exit_success ↦ exit_success
          | error message ↦ error message
        ])
          ≡ ok a'
        → P a'
    after_option args a' rest (ok b) f e = rest b (f b refl) e
    after_option args a' rest exit_success f e = cc
    after_option args a' rest (error message) f e = cc

    after_argument :
        (value : Str) (args : List Str) (a' : A)
        → ((b : A) → P b → parse_args read (value ∷ args) b ≡ ok a' → P a')
        → ((b : A) → P b → parse_args read args b ≡ ok a' → P a')
        → (x : Argument A) → Keeps x
        → (elim x [
          | flag b ↦ parse_args read (value ∷ args) b
          | option take_value ↦ elim (take_value value) [
            | ok b ↦ parse_args read args b
            | exit_success ↦ exit_success
            | error message ↦ error message
          ]
          | finish result ↦ result
        ])
          ≡ ok a'
        → P a'
    after_argument value args a' more rest (flag b) k e = more b k e
    after_argument value args a' more rest (option take_value) k e =
        after_option args a' rest (take_value value) (k value) e
    after_argument value args a' more rest (finish result) k e = k a' e

    pub parse_args-keeps :
        (args : List Str) (a a' : A) → P a → parse_args read args a ≡ ok a' → P a'
    unfolding parse_args
    parse_args-keeps [] a a' p h = subst P (cc) p
    parse_args-keeps (arg ∷ []) a a' p h = one_argument arg (read arg a) a' (keeps arg a p) h
    parse_args-keeps (arg ∷ value ∷ args) a a' p h =
        after_argument value args a' (λ b q e. parse_args-keeps (value ∷ args) b a' q e)
          (λ b q e. parse_args-keeps args b a' q e) (read arg a) (keeps arg a p) h

-- A pattern that was given is one that std::regex accepts.
abbrev pub Compiles : (Str → Option Str) → Option Str → Type 0
Compiles compile none = Unit
Compiles compile (some pattern) = compile pattern ≡ none

pub record IsRead (compile : Str → Option Str) (a : WithDb TraceOptions) : Type 0 where
  pub cone : 1 ≤ a.opts.cone_level
  pub include : Compiles compile a.opts.include_re
  pub exclude : Compiles compile a.opts.exclude_re
  pub stop_at : Compiles compile a.opts.stop_at_re

ok_injective {ℓ} : {A : Type ℓ} {a b : A} → ok a ≡ ok b → a ≡ b
ok_injective e = cc

module _ (compile : Str → Option Str) where
  abbrev Read : WithDb TraceOptions → Type 0
  Read = IsRead compile

  regex-Keeps :
      (name : Str) (put : Option Str → TraceOptions) (a : WithDb TraceOptions)
      → ((pattern : Str) → compile pattern ≡ none → Read (with_opts a (put (some pattern))))
      → Keeps Read (read_regex compile name put a)
  regex-Keeps name put a h value b e = elim (Option-cases (compile value)) [
    | inl good ↦ subst Read (ok_injective (rw good at e)) (h value good)
    | inr (what, bad) ↦ cc (rw bad at e)
  ]

  cone-Keeps :
      (value : Str) (a b : WithDb TraceOptions) (n : Option ℤ)
      → Read a
      → put_cone_level value a n ≡ ok b
      → Read b
  cone-Keeps value a b none r e = cc
  cone-Keeps value a b (some (pos zero)) r e = cc
  cone-Keeps value a b (some (pos (suc n))) r e =
      subst Read (ok_injective e) (record {
        cone = omega arith;
        include = r.include;
        exclude = r.exclude;
        stop_at = r.stop_at;
      })
  cone-Keeps value a b (some (negsuc n)) r e = cc

  -- The options that no condition is about.
  number-Keeps :
      (name value : Str) (put : ℕ → TraceOptions) (a b : WithDb TraceOptions) (n : Option ℕ)
      → ((m : ℕ) → Read (with_opts a (put m)))
      → put_number name value put a n ≡ ok b
      → Read b
  number-Keeps name value put a b none h e = cc
  number-Keeps name value put a b (some n) h e = subst Read (ok_injective e) (h n)

  format-Keeps :
      (put : OutputFormat → TraceOptions) (a b : WithDb TraceOptions) (f : Option OutputFormat)
      → ((g : OutputFormat) → Read (with_opts a (put g)))
      → put_format put a f ≡ ok b
      → Read b
  format-Keeps put a b none h e = cc
  format-Keeps put a b (some f) h e = subst Read (ok_injective e) (h f)

  db-Keeps : (a : WithDb TraceOptions) → Read a → Keeps Read (read_db a)
  db-Keeps a r =
      if-Keeps Read a.accepts_db _ _
        (λ value b e.
          subst Read (ok_injective e) (record {
            cone = r.cone;
            include = r.include;
            exclude = r.exclude;
            stop_at = r.stop_at;
          }))
        (λ b e. cc)

  read_trace-Keeps :
      (arg : Str) (a : WithDb TraceOptions) → Read a → Keeps Read (read_trace compile arg a)
  unfolding read_trace
  read_trace-Keeps arg a r =
      elim (Bool-cases (str_eq arg (codes "-h") || str_eq arg (codes "--help"))) [
        | inl y ↦ rw (y) (λ b e. cc)
        | inr n0 ↦ elim (Bool-cases (str_eq arg (codes "--db"))) [
          | inl y ↦ rw (n0, y) (db-Keeps a r)
          | inr n1 ↦ elim (Bool-cases (str_eq arg (codes "--mode"))) [
            | inl y ↦
                rw (n0, n1, y)
                  (λ value b e. subst Read (ok_injective e) (record {
                    cone = r.cone;
                    include = r.include;
                    exclude = r.exclude;
                    stop_at = r.stop_at;
                  }))
            | inr n2 ↦ elim (Bool-cases (str_eq arg (codes "--signal"))) [
              | inl y ↦
                  rw (n0, n1, n2, y)
                    (λ value b e. subst Read (ok_injective e) (record {
                      cone = r.cone;
                      include = r.include;
                      exclude = r.exclude;
                      stop_at = r.stop_at;
                    }))
              | inr n3 ↦ elim (Bool-cases (str_eq arg (codes "--depth"))) [
                | inl y ↦
                    rw (n0, n1, n2, n3, y)
                      (λ value b e.
                        number-Keeps arg value _ a b (parse_unsigned_cli_value value)
                          (λ n. record {
                            cone = r.cone;
                            include = r.include;
                            exclude = r.exclude;
                            stop_at = r.stop_at;
                          })
                          e)
                | inr n4 ↦ elim (Bool-cases (str_eq arg (codes "--cone-level"))) [
                  | inl y ↦
                      rw (n0, n1, n2, n3, n4, y)
                        (λ value b e. cone-Keeps value a b (stoll_text value) r e)
                  | inr n5 ↦ elim (Bool-cases (str_eq arg (codes "--max-nodes"))) [
                    | inl y ↦
                        rw (n0, n1, n2, n3, n4, n5, y)
                          (λ value b e.
                            number-Keeps arg value _ a b (parse_unsigned_cli_value value)
                              (λ n. record {
                                cone = r.cone;
                                include = r.include;
                                exclude = r.exclude;
                                stop_at = r.stop_at;
                              })
                              e)
                    | inr n6 ↦ elim (Bool-cases (str_eq arg (codes "--prefer-port-hop"))) [
                      | inl y ↦
                          rw (n0, n1, n2, n3, n4, n5, n6, y)
                            (record {
                              cone = r.cone;
                              include = r.include;
                              exclude = r.exclude;
                              stop_at = r.stop_at;
                            })
                      | inr n7 ↦ elim (Bool-cases (str_eq arg (codes "--include"))) [
                        | inl y ↦
                            rw (n0, n1, n2, n3, n4, n5, n6, n7, y)
                              (regex-Keeps arg (λ re. record a.opts { include_re = re }) a
                                (λ p g. record {
                                  cone = r.cone;
                                  include = g;
                                  exclude = r.exclude;
                                  stop_at = r.stop_at;
                                }))
                        | inr n8 ↦ elim (Bool-cases (str_eq arg (codes "--exclude"))) [
                          | inl y ↦
                              rw (n0, n1, n2, n3, n4, n5, n6, n7, n8, y)
                                (regex-Keeps arg (λ re. record a.opts { exclude_re = re }) a
                                  (λ p g. record {
                                    cone = r.cone;
                                    include = r.include;
                                    exclude = g;
                                    stop_at = r.stop_at;
                                  }))
                          | inr n9 ↦ elim (Bool-cases (str_eq arg (codes "--stop-at"))) [
                            | inl y ↦
                                rw (n0, n1, n2, n3, n4, n5, n6, n7, n8, n9, y)
                                  (regex-Keeps arg (λ re. record a.opts { stop_at_re = re }) a
                                    (λ p g. record {
                                      cone = r.cone;
                                      include = r.include;
                                      exclude = r.exclude;
                                      stop_at = g;
                                    }))
                            | inr n10 ↦ elim (Bool-cases (str_eq arg (codes "--format"))) [
                              | inl y ↦
                                  rw (n0, n1, n2, n3, n4, n5, n6, n7, n8, n9, n10, y)
                                    (λ value b e.
                                      format-Keeps (λ format. record a.opts { format = format }) a b
                                        (parse_output_format value)
                                        (λ f. record {
                                          cone = r.cone;
                                          include = r.include;
                                          exclude = r.exclude;
                                          stop_at = r.stop_at;
                                        })
                                        e)
                              | inr n11 ↦
                                  rw (n0, n1, n2, n3, n4, n5, n6, n7, n8, n9, n10, n11) (λ b e. cc)
                            ]
                          ]
                        ]
                      ]
                    ]
                  ]
                ]
              ]
            ]
          ]
        ]
      ]

-- What the tracer relies on after a parse of its arguments.
pub record IsUsable (compile : Str → Option Str) (require_db : Bool) (a : WithDb TraceOptions)
    : Type 0 where
  pub mode : (a.opts.mode ≡ codes "drivers") ⊎ (a.opts.mode ≡ codes "loads")
  pub signal : a.opts.signal ≢ []
  pub db_given : require_db ≡ true → is_some a.db_path ≡ true
  pub read : IsRead compile a
  pub query :
      (parse_signal_query a.opts.signal ≡ some (a.opts.root_signal, a.opts.signal_select_axes))
      ⊎ ((parse_signal_query a.opts.signal ≡ none)
          × (a.opts.root_signal ≡ a.opts.signal)
          × (a.opts.signal_select_axes ≡ []))

check-eq-ok :
    {A : Type 0} (f : A → Parsed A) (r : Parsed A) {a : A}
    → check f r ≡ ok a
    → (b : A) × (r ≡ ok b) × (f b ≡ ok a)
check-eq-ok f (ok b) h = (b, refl, h)
check-eq-ok f exit_success h = cc
check-eq-ok f (error message) h = cc

start : Bool → Option Str → WithDb TraceOptions
start accepts_db db_path = record {
  accepts_db = accepts_db;
  db_path = db_path;
  opts = default_trace_options;
}

mode_of :
    (mode : Str)
    → (not (str_eq mode (codes "drivers")) && not (str_eq mode (codes "loads"))) ≡ false
    → (mode ≡ codes "drivers") ⊎ (mode ≡ codes "loads")
mode_of mode h = elim (Bool-cases (str_eq mode (codes "drivers"))) [
  | inl y ↦ inl ((str_eq_iff mode (codes "drivers")).0 y)
  | inr n ↦ inr ((str_eq_iff mode (codes "loads")).0 (ground arith))
]

not_empty : (s : Str) → is_empty s ≡ false → s ≢ []
not_empty [] h e = cc
not_empty (c ∷ s) h e = cc

with_query-IsUsable :
    (compile : Str → Option Str) (require_db : Bool) (a : WithDb TraceOptions)
    → IsRead compile a
    → (lacks_db require_db a || (is_empty a.opts.mode || is_empty a.opts.signal)) ≡ false
    → (not (str_eq a.opts.mode (codes "drivers")) && not (str_eq a.opts.mode (codes "loads")))
      ≡ false
    → (q : Option (Str × List Axis)) → parse_signal_query a.opts.signal ≡ q
    → IsUsable compile require_db (with_opts a (with_query a.opts q))
with_query-IsUsable compile require_db a r given mode none e = record {
  mode = mode_of a.opts.mode mode;
  signal = not_empty a.opts.signal (ground arith);
  db_given = λ h. ground arith;
  read = record { cone = r.cone; include = r.include; exclude = r.exclude; stop_at = r.stop_at };
  query = inr (e, refl, refl);
}
with_query-IsUsable compile require_db a r given mode (some (root, axes)) e = record {
  mode = mode_of a.opts.mode mode;
  signal = not_empty a.opts.signal (ground arith);
  db_given = λ h. ground arith;
  read = record { cone = r.cone; include = r.include; exclude = r.exclude; stop_at = r.stop_at };
  query = inl e;
}

check_trace-IsUsable :
    (compile : Str → Option Str) (require_db : Bool) (a b : WithDb TraceOptions)
    → IsRead compile a
    → check_trace require_db a ≡ ok b
    → IsUsable compile require_db b
unfolding check_trace
check_trace-IsUsable compile require_db a b r h =
    elim (Bool-cases (lacks_db require_db a || (is_empty a.opts.mode || is_empty a.opts.signal))) [
      | inl lacking ↦ cc (rw lacking at h)
      | inr given ↦
          let wrong =
            not (str_eq a.opts.mode (codes "drivers"))
            && not (str_eq a.opts.mode (codes "loads")) in
          elim (Bool-cases wrong) [
            | inl y ↦ cc (rw (given, y) at h)
            | inr mode ↦
                subst (IsUsable compile require_db) (ok_injective (rw (given, mode) at h)) (
                  with_query-IsUsable compile require_db a r given mode
                    (parse_signal_query a.opts.signal) refl)
          ]
    ]

-- Options that are accepted have a mode of drivers or loads, a signal, a cone level of at least 1,
-- and patterns that std::regex accepts; the path of a database where one is required; and the name
-- and the selects that the signal is parsed to, or the signal as a name without selects where it
-- cannot be parsed.
pub parse_trace_args-IsUsable :
    (compile : Str → Option Str) (args : List Str) (accepts_db : Bool) (db_path : Option Str)
    (require_db : Bool) (a : WithDb TraceOptions)
    → parse_trace_args compile args accepts_db db_path require_db ≡ ok a
    → IsUsable compile require_db a
unfolding parse_trace_args start
parse_trace_args-IsUsable compile args accepts_db db_path require_db a h =
    let initial : IsRead compile (start accepts_db db_path) = record {
      cone = omega arith;
      include = tt;
      exclude = tt;
      stop_at = tt;
    } in
    let (b, parsed, checked) = check-eq-ok (check_trace require_db) _ h in
    check_trace-IsUsable compile require_db b a
      (parse_args-keeps (IsRead compile) (read_trace compile) (read_trace-Keeps compile) args
        (start accepts_db db_path) b initial parsed)
      checked
