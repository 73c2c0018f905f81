-- ===== src/Trace/Cli/RoundTrip/Hier.antt =====
-- ParseHierArgs of query/HierQuery.cc on arguments that are written from settings.
use auto_waveform_debugger.Base.{
  ℕ, ◌≡◌, refl, ◌∙◌, Bool, true, false, ◌||◌, Option, some, List, [], ◌∷◌, ◌++◌, Str, codes, arith,
  str_eq, str_eq_iff, Bool-cases, inl, inr,
}
use auto_waveform_debugger.Trace.Number.{parse_unsigned_cli_value}
use auto_waveform_debugger.Trace.Hier.{OutputFormat, HierOptions}
use auto_waveform_debugger.Trace.Cli.{
  Parsed, ok, exit_success, error, option, finish, parse_args, parse_output_format, WithDb,
  read_hier, lacks_db, parse_hier_args, default_hier_options,
}
use auto_waveform_debugger.Trace.Cli.RoundTrip.{
  parse_args-option, parse_args-flag, parse_args-finish, parse_args-missing,
}

-- What a caller sets, with the text that it writes for it.
pub data Setting (accepts_db : Bool) : Type 0 where
  db : accepts_db ≡ true → Str → Setting accepts_db
  root : Str → Setting accepts_db
  depth : (s : Str) (n : ℕ) → parse_unsigned_cli_value s ≡ some n → Setting accepts_db
  max_nodes : (s : Str) (n : ℕ) → parse_unsigned_cli_value s ≡ some n → Setting accepts_db
  format : (s : Str) (f : OutputFormat) → parse_output_format s ≡ some f → Setting accepts_db
  show_source : Setting accepts_db

abbrev pub apply :
    {accepts_db : Bool} → Setting accepts_db → WithDb HierOptions → WithDb HierOptions
apply (db h path) a = record a { db_path = some path }
apply (root path) a = record a { opts = record a.opts { root = path } }
apply (depth s n h) a = record a { opts = record a.opts { depth_limit = n } }
apply (max_nodes s n h) a = record a { opts = record a.opts { max_nodes = n } }
apply (format s f h) a = record a { opts = record a.opts { format = f } }
apply show_source a = record a { opts = record a.opts { show_source = true } }

-- The arguments for the settings, followed by others.
unfoldable pub write : {accepts_db : Bool} → List (Setting accepts_db) → List Str → List Str
write [] rest = rest
write (db h path ∷ l) rest = codes "--db" ∷ path ∷ write l rest
write (root path ∷ l) rest = codes "--root" ∷ path ∷ write l rest
write (depth s n h ∷ l) rest = codes "--depth" ∷ s ∷ write l rest
write (max_nodes s n h ∷ l) rest = codes "--max-nodes" ∷ s ∷ write l rest
write (format s f h ∷ l) rest = codes "--format" ∷ s ∷ write l rest
write (show_source ∷ l) rest = codes "--show-source" ∷ write l rest

-- The settings one after the other: a later one wins.
unfoldable pub apply_all :
    {accepts_db : Bool} → List (Setting accepts_db) → WithDb HierOptions → WithDb HierOptions
apply_all [] a = a
apply_all (s ∷ l) a = apply_all l (apply s a)

parse_args-write :
    (accepts_db : Bool) (l : List (Setting accepts_db)) (rest : List Str) (a : WithDb HierOptions)
    → a.accepts_db ≡ accepts_db
    → parse_args read_hier (write l rest) a ≡ parse_args read_hier rest (apply_all l a)
unfolding write apply_all read_hier
parse_args-write b [] rest a e = refl
parse_args-write b (db h path ∷ l) rest a e =
    parse_args-option read_hier (codes "--db") path (write l rest) a
      (apply {accepts_db = b} (db h path) a) (λ value. ok (record a { db_path = some value }))
      (rw (e, h) refl) refl
    ∙ parse_args-write b l rest _ e
parse_args-write b (root path ∷ l) rest a e =
    parse_args-option read_hier _ path (write l rest) a _ _ refl refl
    ∙ parse_args-write b l rest _ e
parse_args-write b (depth s n h ∷ l) rest a e =
    parse_args-option read_hier _ s (write l rest) a _ _ refl (rw h refl)
    ∙ parse_args-write b l rest _ e
parse_args-write b (max_nodes s n h ∷ l) rest a e =
    parse_args-option read_hier _ s (write l rest) a _ _ refl (rw h refl)
    ∙ parse_args-write b l rest _ e
parse_args-write b (format s f h ∷ l) rest a e =
    parse_args-option read_hier _ s (write l rest) a _ _ refl (rw h refl)
    ∙ parse_args-write b l rest _ e
parse_args-write b (show_source ∷ l) rest a e =
    parse_args-flag read_hier _ (write l rest) a _ refl ∙ parse_args-write b l rest _ e

abbrev pub before : Bool → Option Str → WithDb HierOptions
before accepts_db db_path = record {
  accepts_db = accepts_db;
  db_path = db_path;
  opts = default_hier_options;
}

-- Arguments that are written from settings, in any order and with repetitions, are parsed to the
-- settings, of which a later one wins, over the defaults; this holds if a path of the database is
-- set or was given before, or none is required.
pub parse_hier_args-write :
    (accepts_db : Bool) (db_path : Option Str) (require_db : Bool) (l : List (Setting accepts_db))
    → lacks_db require_db (apply_all l (before accepts_db db_path)) ≡ false
    → parse_hier_args (write l []) accepts_db db_path require_db
      ≡ ok (apply_all l (before accepts_db db_path))
unfolding parse_hier_args
parse_hier_args-write b db_path require_db l h =
    rw (parse_args-write b l [] (before b db_path) refl) (unfold parse_args in rw h refl)

abbrev pub is_one_of : Str → List Str → Bool
is_one_of arg [] = false
is_one_of arg (s ∷ ss) = str_eq arg s || is_one_of arg ss

abbrev pub known_arguments : List Str
known_arguments =
    codes "-h"
    ∷ codes "--help"
    ∷ codes "--db"
    ∷ codes "--root"
    ∷ codes "--depth"
    ∷ codes "--max-nodes"
    ∷ codes "--format"
    ∷ codes "--show-source"
    ∷ []

abbrev pub value_arguments : List Str
value_arguments = codes "--root" ∷ codes "--depth" ∷ codes "--max-nodes" ∷ codes "--format" ∷ []

read_hier-unknown :
    (arg : Str) (a : WithDb HierOptions)
    → is_one_of arg known_arguments ≡ false
    → read_hier arg a ≡ finish (error (codes "Unknown option: " ++ arg))
unfolding read_hier
read_hier-unknown arg a h = ground arith

read_hier-value :
    (arg : Str) (a : WithDb HierOptions)
    → is_one_of arg value_arguments ≡ true
    → (take_value : Str → Parsed (WithDb HierOptions)) × (read_hier arg a ≡ option take_value)
unfolding read_hier
read_hier-value arg a h = elim (Bool-cases (str_eq arg (codes "--root"))) [
  | inl e ↦ rw ((str_eq_iff arg (codes "--root")).0 e) (_, refl)
  | inr n1 ↦ elim (Bool-cases (str_eq arg (codes "--depth"))) [
    | inl e ↦ rw ((str_eq_iff arg (codes "--depth")).0 e) (_, refl)
    | inr n2 ↦ elim (Bool-cases (str_eq arg (codes "--max-nodes"))) [
      | inl e ↦ rw ((str_eq_iff arg (codes "--max-nodes")).0 e) (_, refl)
      | inr n3 ↦
          let e : str_eq arg (codes "--format") ≡ true = ground arith in
          rw ((str_eq_iff arg (codes "--format")).0 e) (_, refl)
    ]
  ]
]

-- A parse stops at the first argument that is not one of the options, with a message that names it,
-- and at an option that wants a value and has none behind it. It ends well at a call for help,
-- whatever comes behind.
pub parse_hier_args-stops :
    (accepts_db : Bool) (db_path : Option Str) (require_db : Bool) (l : List (Setting accepts_db))
    (arg : Str) (rest : List Str)
    → (is_one_of arg known_arguments ≡ false
        → parse_hier_args (write l (arg ∷ rest)) accepts_db db_path require_db
          ≡ error (codes "Unknown option: " ++ arg))
      × (is_one_of arg value_arguments ≡ true
          → parse_hier_args (write l (arg ∷ [])) accepts_db db_path require_db
            ≡ error (codes "Missing value for " ++ arg))
      × (parse_hier_args (write l (codes "--help" ∷ rest)) accepts_db db_path require_db
          ≡ exit_success)
unfolding parse_hier_args
parse_hier_args-stops b db_path require_db l arg rest =
    let a : WithDb HierOptions = apply_all l (before b db_path) in
    (
      λ h.
          rw (parse_args-write b l (arg ∷ rest) (before b db_path) refl)
            (rw (parse_args-finish read_hier arg rest a _ (read_hier-unknown arg a h)) refl),
      λ h. rw (parse_args-write b l (arg ∷ []) (before b db_path) refl) (
          let (take_value, e) = read_hier-value arg a h in
          rw (parse_args-missing read_hier arg a take_value e) refl),
      rw (parse_args-write b l (codes "--help" ∷ rest) (before b db_path) refl) (
          rw (parse_args-finish read_hier (codes "--help") rest a _ (unfold read_hier in refl))
            refl),
    )
