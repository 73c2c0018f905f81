-- ===== src/Wave/Database/BaseCache.antt =====
-- rebuild_base_signal_path_cache of WaveDatabase.cpp: the short names of vector signals.
use auto_waveform_debugger.Base.{
  ◌≡◌, ◌≢◌, ◌↔◌, refl, sym, ap, ◌∙◌, true, false, none, some, List, [], ◌∷◌, Str, arith,
  if◌then◌else◌, Bool-cases, All, str_eq, str_eq_iff, str_eq_refl, inl, inr,
}
use auto_waveform_debugger.Base.Dict
use auto_waveform_debugger.Base.Dict.{Dict}
use auto_waveform_debugger.Wave.Database.{
  WaveDatabase, strip_bit_suffix, member, add_base_path, add_base_paths,
  rebuild_base_signal_path_cache,
}

-- What is known of one base path: no signal, one signal, or several.
data Status : Type 0 where
  unseen : Status
  single : Str → Status
  several : Status

observe : Str → Status → Status
observe path unseen = single path
observe path (single old) = if str_eq old path then single old else several
observe path several = several

-- The paths in `m` that are `base` with a bit suffix.
pub variants {ℓ} : {V : Type ℓ} → Str → List (Str × V) → List Str
variants base [] = []
variants base ((path, info) ∷ m) =
    let rest = variants base m in
    if str_eq (strip_bit_suffix path) path
    then rest
    else if str_eq (strip_bit_suffix path) base
    then path ∷ rest
    else rest

observe_all : Status → List Str → Status
observe_all s [] = s
observe_all s (p ∷ ps) = observe_all (observe p s) ps

-- The two caches hold `s` at `base`.
abbrev Holds : Str → Dict Str × List Str → Status → Type 0
Holds base caches unseen = (Dict.lookup base caches.0 ≡ none) × (member base caches.1 ≡ false)
Holds base caches (single p) = (Dict.lookup base caches.0 ≡ some p) × (member base caches.1 ≡ false)
Holds base caches several = (Dict.lookup base caches.0 ≡ none) × (member base caches.1 ≡ true)

-- Another base path's entry is left alone.
add_base_path_ne :
    (path base : Str) (caches : Dict Str × List Str) (s : Status)
    → str_eq (strip_bit_suffix path) base ≡ false
    → Holds base caches s
    → Holds base (add_base_path path caches) s
unfolding add_base_path member
add_base_path_ne path base (cache, ambiguous) unseen ne h = ground (
  arith,
  Dict.lookup-insert (strip_bit_suffix path) base path cache,
  Dict.lookup-erase (strip_bit_suffix path) base cache,
)
add_base_path_ne path base (cache, ambiguous) (single p) ne h = ground (
  arith,
  Dict.lookup-insert (strip_bit_suffix path) base path cache,
  Dict.lookup-erase (strip_bit_suffix path) base cache,
)
add_base_path_ne path base (cache, ambiguous) several ne h = ground (
  arith,
  Dict.lookup-insert (strip_bit_suffix path) base path cache,
  Dict.lookup-erase (strip_bit_suffix path) base cache,
)

add_base_path_eq :
    (path : Str) (caches : Dict Str × List Str) (s : Status)
    → str_eq (strip_bit_suffix path) path ≡ false
    → Holds (strip_bit_suffix path) caches s
    → Holds (strip_bit_suffix path) (add_base_path path caches) (observe path s)
unfolding add_base_path member observe
add_base_path_eq path (cache, ambiguous) unseen ne h =
    ground (arith, Dict.lookup-insert_self (strip_bit_suffix path) path cache)
add_base_path_eq path (cache, ambiguous) (single p) ne h = ground (
  arith,
  str_eq_refl (strip_bit_suffix path),
  Dict.lookup-erase (strip_bit_suffix path) (strip_bit_suffix path) cache,
)
add_base_path_eq path (cache, ambiguous) several ne h = ground arith

-- A path without a bit suffix is passed over.
add_base_path_plain :
    (path : Str) (caches : Dict Str × List Str)
    → str_eq (strip_bit_suffix path) path ≡ true
    → add_base_path path caches ≡ caches
unfolding add_base_path
add_base_path_plain path (cache, ambiguous) h = ground arith

add_base_paths-Holds {ℓ} :
    {V : Type ℓ} (base : Str) (m : List (Str × V)) (caches : Dict Str × List Str) (s : Status)
    → Holds base caches s
    → Holds base (add_base_paths m caches) (observe_all s (variants base m))
unfolding add_base_paths variants observe_all
add_base_paths-Holds base [] caches s h = h
add_base_paths-Holds base ((path, info) ∷ m) caches s h =
    elim (Bool-cases (str_eq (strip_bit_suffix path) path)) [
      | inl plain ↦
          rw (plain, add_base_path_plain path caches plain) (add_base_paths-Holds base m caches s h)
      | inr suffixed ↦ elim (Bool-cases (str_eq (strip_bit_suffix path) base)) [
        | inr ne ↦
            rw (suffixed, ne)
              (add_base_paths-Holds base m (add_base_path path caches) s
                (add_base_path_ne path base caches s ne h))
        | inl eq ↦
            rw (suffixed, eq)
              (add_base_paths-Holds base m (add_base_path path caches) (observe path s) (
                let e : strip_bit_suffix path ≡ base = (str_eq_iff _ _).0 eq in
                rw e at (add_base_path_eq path caches s suffixed (rw e h))))
      ]
    ]

abbrev pub AreOnly : Str → List Str → Type 0
AreOnly p ps = (ps ≢ []) × All (λ q. q ≡ p) ps

observe_all-several : (ps : List Str) → observe_all several ps ≡ several
unfolding observe_all observe
observe_all-several [] = refl
observe_all-several (p ∷ ps) = observe_all-several ps

observe_all-single :
    (q p : Str) (ps : List Str)
    → (observe_all (single q) ps ≡ single p) ↔ ((q ≡ p) × All (λ r. r ≡ p) ps)
unfolding observe_all observe
observe_all-single q p [] = (λ h. (cc, tt), λ h. ap single h.0)
observe_all-single q p (r ∷ ps) = elim (Bool-cases (str_eq q r)) [
  | inl same ↦ rw same (
      let e : q ≡ r = (str_eq_iff q r).0 same in
      (
        λ h. let k = (observe_all-single q p ps).0 h in (k.0, (sym e ∙ k.0, k.1)),
        λ h. (observe_all-single q p ps).1 (h.0, h.1.1),
      ))
  | inr differ ↦
      rw (differ, observe_all-several ps)
        (λ h. cc, λ h. absurd (ground (arith, str_eq_iff q r, h.0, h.1.0)))
]

-- The name of a vector signal without its bit suffix stands for a signal exactly if that is the
-- only signal of the database with that name.
pub lookup-rebuild_base_signal_path_cache :
    (db : WaveDatabase) (base p : Str)
    → (Dict.lookup base (rebuild_base_signal_path_cache db).base_signal_path_cache ≡ some p)
      ↔ AreOnly p (variants base db.signal_info)
unfolding rebuild_base_signal_path_cache
lookup-rebuild_base_signal_path_cache db base p = decide (variants base db.signal_info) (
    add_base_paths-Holds base db.signal_info ([], []) unseen
      (unfold Dict.lookup member in (refl, refl)))
  where
    caches : Dict Str × List Str
    caches = add_base_paths db.signal_info ([], [])

    finish :
        (q : Str) (s : Status)
        → Holds base caches s
        → (Dict.lookup base caches.0 ≡ some p) ↔ (s ≡ single p)
    finish q unseen h = (λ e. cc (h.0), λ e. cc)
    finish q (single r) h = (λ e. cc (h.0), λ e. cc (h.0))
    finish q several h = (λ e. cc (h.0), λ e. cc)

    decide :
        (ps : List Str)
        → Holds base caches (observe_all unseen ps)
        → (Dict.lookup base caches.0 ≡ some p) ↔ AreOnly p ps
    decide [] h = unfold observe_all in (λ e. cc (h.0), λ only. absurd (only.0 refl))
    decide (r ∷ ps) h =
        unfold observe_all observe in
        let step = finish p (observe_all (single r) ps) h in
        let iff = observe_all-single r p ps in
        (λ e. let k = iff.0 (step.0 e) in ((λ bad. cc), k), λ only. step.1 (iff.1 only.1))
