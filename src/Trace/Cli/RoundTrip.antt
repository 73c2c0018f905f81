-- ===== src/Trace/Cli/RoundTrip.antt =====
-- What the loops over the arguments make of arguments that are written from settings.
pub mod Hier
use auto_waveform_debugger.Base.{◌≡◌, refl, Option, none, some, List, [], ◌∷◌, Str, arith}
use auto_waveform_debugger.Trace.Cli.{
  Parsed, ok, exit_success, error, Argument, flag, option, finish, missing_value, parse_args,
}

module _ {ℓ} {A : Type ℓ} (read : Str → A → Argument A) where
  pub parse_args-option :
      (arg value : Str) (args : List Str) (a a' : A) (take_value : Str → Parsed A)
      → read arg a ≡ option take_value
      → take_value value ≡ ok a'
      → parse_args read (arg ∷ value ∷ args) a ≡ parse_args read args a'
  unfolding parse_args
  parse_args-option arg value args a a' take_value h k = rw (parse_args, h) (rw k refl)

  pub parse_args-flag :
      (arg : Str) (args : List Str) (a a' : A)
      → read arg a ≡ flag a'
      → parse_args read (arg ∷ args) a ≡ parse_args read args a'
  unfolding parse_args
  parse_args-flag arg [] a a' h = rw (parse_args, h) refl
  parse_args-flag arg (value ∷ args) a a' h = rw (parse_args, h) refl

  pub parse_args-finish :
      (arg : Str) (args : List Str) (a : A) (result : Parsed A)
      → read arg a ≡ finish result
      → parse_args read (arg ∷ args) a ≡ result
  unfolding parse_args
  parse_args-finish arg [] a result h = rw (parse_args, h) refl
  parse_args-finish arg (value ∷ args) a result h = rw (parse_args, h) refl

  pub parse_args-missing :
      (arg : Str) (a : A) (take_value : Str → Parsed A)
      → read arg a ≡ option take_value
      → parse_args read (arg ∷ []) a ≡ missing_value arg
  unfolding parse_args
  parse_args-missing arg a take_value h = rw (parse_args, h) refl
