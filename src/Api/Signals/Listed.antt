-- ===== src/Api/Signals/Listed.antt =====
-- The paths that list_signals of AgentAPI.cpp returns.
use auto_waveform_debugger.Base.{
  ◌≡◌, refl, ◌∙◌, Bool, true, false, not, ◌&&◌, ◌||◌, Option, some, List, [], ◌∷◌, Str, arith,
  str_eq, is_empty, All,
}
use auto_waveform_debugger.Wave.Signal.{SignalInfo}
use auto_waveform_debugger.Wave.Database.{WaveDatabase, member}
use auto_waveform_debugger.Wave.Database.Paths.{insert_sorted, sort_paths}
use auto_waveform_debugger.Api.Reply.{success}
use auto_waveform_debugger.Api.Signals.{
  Regexes, is_top_module_signal_path, canonical_signal_type, signal_matches_types, supported_types,
  build_signal_type_filter, build_path_matcher, path_matches, is_listed, listed_paths, list_signals,
}

abbrev pub any {ℓ} : {A : Type ℓ} → (A → Bool) → List A → Bool
any f [] = false
any f (x ∷ xs) = f x || any f xs

member-insert_sorted :
    (p s : Str) (ts : List Str) → member p (insert_sorted s ts) ≡ (str_eq s p || member p ts)
unfolding member insert_sorted
member-insert_sorted p s [] = ground arith
member-insert_sorted p s (t ∷ ts) = ground (arith, member-insert_sorted p s ts)

pub member-sort_paths : (p : Str) (ss : List Str) → member p (sort_paths ss) ≡ member p ss
unfolding member sort_paths
member-sort_paths p [] = refl
member-sort_paths p (s ∷ ss) =
    ground (arith, member-insert_sorted p s (sort_paths ss), member-sort_paths p ss)

member-listed_paths :
    (f : SignalInfo → Bool) (p : Str) (m : List (Str × SignalInfo))
    → member p (listed_paths f m) ≡ any (λ e. str_eq e.1.path p && f e.1) m
unfolding member listed_paths
member-listed_paths f p [] = refl
member-listed_paths f p ((k, info) ∷ m) = ground (arith, member-listed_paths f p m)

-- A supported type.
abbrev pub IsSupported : Str → Type 0
IsSupported t = member (canonical_signal_type t) supported_types ≡ true

abbrev pub has_type : List Str → SignalInfo → Bool
has_type types info =
    is_empty types
    || any (λ t. str_eq (canonical_signal_type t) (canonical_signal_type info.type)) types

-- The filter's set holds the canonical types that are asked for.
filter-eq :
    (types acc : List Str)
    → All IsSupported types
    → (allowed : List Str) × (build_signal_type_filter types acc ≡ success allowed)
      × (is_empty allowed ≡ (is_empty types && is_empty acc))
      × ((type : Str)
          → member type allowed
            ≡ (any (λ t. str_eq (canonical_signal_type t) type) types || member type acc))
unfolding build_signal_type_filter member
filter-eq [] acc h = (acc, refl, ground arith, λ type. refl)
filter-eq (t ∷ types) acc h =
    let (allowed, built, empty, holds) = filter-eq types (canonical_signal_type t ∷ acc) h.1 in
    (allowed, rw (h.0) built, ground arith, λ type. ground (arith, holds type))

any-cong : {A : Type 0} (f g : A → Bool) (xs : List A) → ((x : A) → f x ≡ g x) → any f xs ≡ any g xs
any-cong f g [] h = refl
any-cong f g (x ∷ xs) h = rw (h x, any-cong f g xs h) refl

-- With types that are all supported and a pattern that is accepted, the listing succeeds and changes
-- nothing, and it holds a path exactly if a signal of the database with that path lies in a top
-- module or a pattern is given, matches the pattern, and has one of the types, if any are given.
pub list_signals_exact :
    (regexes : Regexes) (pattern : Str) (types : List Str) (db : WaveDatabase)
    (matcher : Option (Str → Bool)) (p : Str)
    → All IsSupported types
    → build_path_matcher regexes pattern ≡ success matcher
    → (signals : List Str) × (list_signals regexes pattern types db ≡ some (success signals, db))
      × (member p signals
          ≡ any
              (λ e.
                str_eq e.1.path p
                && ((not (is_empty pattern) || is_top_module_signal_path e.1.path)
                    && (path_matches matcher e.1.path && has_type types e.1)))
              db.signal_info)
unfolding list_signals
list_signals_exact regexes pattern types db matcher p supported accepted =
    let (allowed, built, empty, holds) = filter-eq types [] supported in
    let test : SignalInfo → Bool = is_listed (is_empty pattern) matcher allowed in
    (
      sort_paths (listed_paths test db.signal_info),
      rw (list_signals, built, accepted) refl,
      member-sort_paths p (listed_paths test db.signal_info)
          ∙ member-listed_paths test p db.signal_info
          ∙ any-cong _ _ db.signal_info (λ e.
            unfold is_listed signal_matches_types member in
            ground (arith, empty, holds (canonical_signal_type e.1.type))),
    )
