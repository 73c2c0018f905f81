-- ===== src/Wave/Database/Paging.antt =====
-- list_signal_paths_page of WaveDatabase.cpp against a filter over the sorted paths.
use auto_waveform_debugger.Base.{
  ℕ, zero, suc, ◌≤◌, ◌≡◌, ◌⊎◌, refl, sym, ap, ◌∙◌, Bool, true, false, not, ◌&&◌, ◌||◌, some, List,
  [], ◌∷◌, Str, arith, if◌then◌else◌, is_empty, ltb, ◌==◌, Bool-cases, inl, inr, All, length, take,
}
use auto_waveform_debugger.Base.Text.{str_lt}
use auto_waveform_debugger.Wave.Database.{WaveDatabase}
use auto_waveform_debugger.Wave.Database.Paths.{
  sort_paths, keys, fill_sorted_paths, paths_from, paths_after, matches_prefix, begin_paths,
  past_prefix, fill_page, more_paths, Page, page_of, list_signal_paths_page,
}
use auto_waveform_debugger.Wave.Database.Paths.Order.{
  str_lt_trans, past_prefix_lem, starts_with-not_lt, Ascending, AreDistinct, All-imp,
  sort_paths-Ascending,
}

unfoldable pub select : (Str → Bool) → List Str → List Str
select f [] = []
select f (x ∷ xs) = if f x then x ∷ select f xs else select f xs

select-none : (f : Str → Bool) (xs : List Str) → All (λ x. f x ≡ false) xs → select f xs ≡ []
unfolding select
select-none f [] h = refl
select-none f (x ∷ xs) h = rw (h.0) (select-none f xs h.1)

select-cong :
    (f g : Str → Bool) (xs : List Str) → All (λ x. f x ≡ g x) xs → select f xs ≡ select g xs
unfolding select
select-cong f g [] h = refl
select-cong f g (x ∷ xs) h = rw (h.0, select-cong f g xs h.1)

-- Past the prefix nothing matches.
past-select :
    (prefix path : Str) (it : List Str)
    → matches_prefix prefix path ≡ false
    → past_prefix prefix path ≡ true
    → All (λ t. str_lt path t ≡ true) it
    → select (matches_prefix prefix) it ≡ []
unfolding matches_prefix
past-select prefix path it h past above =
    select-none (matches_prefix prefix) it
      (All-imp it (λ t k. ground (arith, past_prefix_lem prefix path t)) above)

pub more_paths-eq :
    (prefix : Str) (it : List Str)
    → Ascending it
    → more_paths prefix it ≡ not (is_empty (select (matches_prefix prefix) it))
unfolding more_paths select
more_paths-eq prefix [] h = refl
more_paths-eq prefix (path ∷ it) h = elim (Bool-cases (matches_prefix prefix path)) [
  | inl hit ↦ ground arith
  | inr miss ↦ elim (Bool-cases (past_prefix prefix path)) [
    | inl past ↦ ground (arith, past-select prefix path it miss past h.0)
    | inr before ↦ ground (arith, more_paths-eq prefix it h.1)
  ]
]

-- The first loop takes the matching paths in order; the second says whether there are more.
fill_page-eq :
    (prefix : Str) (room : ℕ) (it : List Str)
    → Ascending it
    → ((fill_page prefix room it).0 ≡ take room (select (matches_prefix prefix) it))
      × (more_paths prefix (fill_page prefix room it).1
          ≡ ltb room (length (select (matches_prefix prefix) it)))
unfolding fill_page select more_paths
fill_page-eq prefix zero it h =
    (refl, more_paths-eq prefix it h ∙ lemma (select (matches_prefix prefix) it))
  where
    lemma : (xs : List Str) → not (is_empty xs) ≡ ltb 0 (length xs)
    lemma [] = refl
    lemma (x ∷ xs) = ground arith
fill_page-eq prefix (suc room) [] h = (refl, ground arith)
fill_page-eq prefix (suc room) (path ∷ it) h = elim (Bool-cases (matches_prefix prefix path)) [
  | inl hit ↦ (
    ground (arith, fill_page-eq prefix room it h.1),
    ground (arith, fill_page-eq prefix room it h.1),
  )
  | inr miss ↦ elim (Bool-cases (past_prefix prefix path)) [
    | inl past ↦ (
      ground (arith, past-select prefix path it miss past h.0),
      ground (arith, past-select prefix path it miss past h.0),
    )
    | inr before ↦ (
      ground (arith, fill_page-eq prefix (suc room) it h.1),
      ground (arith, fill_page-eq prefix (suc room) it h.1),
    )
  ]
]

-- A path is on the pages after `cursor`.
abbrev pub wanted : Str → Str → Str → Bool
wanted prefix cursor path = matches_prefix prefix path && (is_empty cursor || str_lt cursor path)

paths_from-Ascending : (s : Str) (xs : List Str) → Ascending xs → Ascending (paths_from s xs)
unfolding paths_from
paths_from-Ascending s [] h = tt
paths_from-Ascending s (t ∷ ts) h = elim (Bool-cases (str_lt t s)) [
  | inl e ↦ rw e (paths_from-Ascending s ts h.1)
  | inr e ↦ rw e h
]

paths_after-Ascending : (s : Str) (xs : List Str) → Ascending xs → Ascending (paths_after s xs)
unfolding paths_after
paths_after-Ascending s [] h = tt
paths_after-Ascending s (t ∷ ts) h = elim (Bool-cases (str_lt s t)) [
  | inl e ↦ rw e h
  | inr e ↦ rw e (paths_after-Ascending s ts h.1)
]

-- The bounds pass over no path that is wanted.
select-paths_from :
    (prefix cursor : Str) (xs : List Str)
    → select (wanted prefix cursor) (paths_from prefix xs) ≡ select (wanted prefix cursor) xs
unfolding select paths_from
select-paths_from prefix cursor [] = refl
select-paths_from prefix cursor (t ∷ ts) = elim (Bool-cases (str_lt t prefix)) [
  | inl e ↦ ground (arith, select-paths_from prefix cursor ts, missed prefix t e)
  | inr e ↦ ground arith
]
  where
    missed : (p t : Str) → str_lt t p ≡ true → matches_prefix p t ≡ false
    missed [] t e = cc
    missed (a ∷ p) t e = unfold matches_prefix in starts_with-not_lt (a ∷ p) t e

select-paths_after :
    (prefix cursor : Str) (xs : List Str)
    → is_empty cursor ≡ false
    → select (wanted prefix cursor) (paths_after cursor xs) ≡ select (wanted prefix cursor) xs
unfolding select paths_after
select-paths_after prefix cursor [] h = refl
select-paths_after prefix cursor (t ∷ ts) h = ground (arith, select-paths_after prefix cursor ts h)

length-paths_after : (s : Str) (xs : List Str) → length (paths_after s xs) ≤ length xs
unfolding paths_after
length-paths_after s [] = omega arith
length-paths_after s (t ∷ ts) = ground (arith, length-paths_after s ts)

paths_after-All :
    (s : Str) (xs : List Str) → Ascending xs → All (λ t. str_lt s t ≡ true) (paths_after s xs)
unfolding paths_after
paths_after-All s [] h = tt
paths_after-All s (t ∷ ts) h = elim (Bool-cases (str_lt s t)) [
  | inl e ↦ rw e (e, All-imp ts (λ u k. str_lt_trans s t u e k) h.0)
  | inr e ↦ rw e (paths_after-All s ts h.1)
]

paths_from-All {κ} :
    (P : Str → Type κ) (s : Str) (xs : List Str) → All P xs → All P (paths_from s xs)
unfolding paths_from
paths_from-All P s [] h = tt
paths_from-All P s (t ∷ ts) h = elim (Bool-cases (str_lt t s)) [
  | inl e ↦ rw e (paths_from-All P s ts h.1)
  | inr e ↦ rw e h
]

-- Where the prefix's bound is the later of the two, its paths are after the cursor too.
paths_from-after :
    (s c : Str) (xs : List Str)
    → Ascending xs
    → length (paths_from s xs) ≤ length (paths_after c xs)
    → All (λ t. str_lt c t ≡ true) (paths_from s xs)
unfolding paths_from paths_after
paths_from-after s c [] h k = tt
paths_from-after s c (t ∷ ts) h k = elim (Bool-cases (str_lt c t)) [
  | inl after ↦
      paths_from-All (λ u. str_lt c u ≡ true) s (t ∷ ts)
        (after, All-imp ts (λ u l. str_lt_trans c t u after l) h.0)
  | inr upto ↦ elim (Bool-cases (str_lt t s)) [
    | inl e ↦ rw e (paths_from-after s c ts h.1 (rw (e, upto) at k))
    | inr e ↦ absurd (let k' = rw (e, upto) at k in omega (arith, length-paths_after c ts))
  ]
]

paths_from-nil : (xs : List Str) → paths_from [] xs ≡ xs
unfolding paths_from
paths_from-nil [] = refl
paths_from-nil (t ∷ ts) = refl

record Begins (prefix cursor : Str) (all it : List Str) : Type 0 where
  ascending : Ascending it
  same : select (wanted prefix cursor) it ≡ select (wanted prefix cursor) all
  after : (is_empty cursor ≡ true) ⊎ All (λ t. str_lt cursor t ≡ true) it

begin_paths-Begins :
    (prefix cursor : Str) (all : List Str)
    → Ascending all
    → Begins prefix cursor all (begin_paths prefix cursor all)
unfolding begin_paths
begin_paths-Begins prefix cursor all h = rw prefixed (elim (Bool-cases (is_empty cursor)) [
  | inl e ↦
      rw e (record { ascending = up; same = select-paths_from prefix cursor all; after = inl e })
  | inr e ↦
      elim (Bool-cases (ltb (length (paths_after cursor all)) (length (paths_from prefix all)))) [
        | inl later ↦
            rw (e, later)
              (record {
                ascending = paths_after-Ascending cursor all h;
                same = select-paths_after prefix cursor all e;
                after = inr (paths_after-All cursor all h);
              })
        | inr earlier ↦
            rw (e, earlier)
              (record {
                ascending = up;
                same = select-paths_from prefix cursor all;
                after = inr (paths_from-after prefix cursor all h (ground arith));
              })
      ]
])
  where
    up : Ascending (paths_from prefix all)
    up = paths_from-Ascending prefix all h

    pick : (p : Str) → (if is_empty p then all else paths_from p all) ≡ paths_from p all
    pick [] = sym (paths_from-nil all)
    pick (a ∷ p) = refl

    prefixed : (if is_empty prefix then all else paths_from prefix all) ≡ paths_from prefix all
    prefixed = pick prefix

-- After the cursor the prefix alone decides.
select-wanted :
    (prefix cursor : Str) (it : List Str)
    → ((is_empty cursor ≡ true) ⊎ All (λ t. str_lt cursor t ≡ true) it)
    → select (matches_prefix prefix) it ≡ select (wanted prefix cursor) it
unfolding select
select-wanted prefix cursor [] h = refl
select-wanted prefix cursor (t ∷ ts) (inl e) =
    ground (arith, select-wanted prefix cursor ts (inl e))
select-wanted prefix cursor (t ∷ ts) (inr h) =
    ground (arith, select-wanted prefix cursor ts (inr h.1))

abbrev pub page_limit : ℕ → ℕ
page_limit limit = if limit == 0 then 1 else limit

pub page_of-eq :
    (prefix cursor : Str) (limit : ℕ) (all : List Str)
    → Ascending all
    → ((page_of prefix cursor limit all).page
        ≡ take (page_limit limit) (select (wanted prefix cursor) all))
      × ((page_of prefix cursor limit all).has_more
          ≡ ltb (page_limit limit) (length (select (wanted prefix cursor) all)))
unfolding page_of
page_of-eq prefix cursor limit all h =
    let begins = begin_paths-Begins prefix cursor all h in
    let it = begin_paths prefix cursor all in
    let e : select (matches_prefix prefix) it ≡ select (wanted prefix cursor) all =
      select-wanted prefix cursor it begins.after ∙ begins.same in
    let filled = fill_page-eq prefix (page_limit limit) it begins.ascending in
    (
      filled.0 ∙ ap (take (page_limit limit)) e,
      filled.1 ∙ ap (λ xs. ltb (page_limit limit) (length xs)) e,
    )

-- The cache of sorted paths, where it is marked valid, holds them all.
abbrev pub IsCacheSound : WaveDatabase → Type 0
IsCacheSound db =
    db.sorted_signal_paths_valid ≡ true
    → db.sorted_signal_paths_cache ≡ sort_paths (keys db.signal_info)

fill_sorted_paths_lem :
    (db : WaveDatabase)
    → IsCacheSound db
    → ((fill_sorted_paths db).sorted_signal_paths_cache ≡ sort_paths (keys db.signal_info))
      × ((fill_sorted_paths db).signal_info ≡ db.signal_info)
unfolding fill_sorted_paths
fill_sorted_paths_lem db sound = elim (Bool-cases db.sorted_signal_paths_valid) [
  | inl e ↦ (rw e (sound e), rw e)
  | inr e ↦ (rw e, rw e)
]

-- On a database with distinct paths, whose cache of sorted paths is not filled or holds them all,
-- a page holds the first `limit` paths (one, for a limit of 0), in order, of those that match the
-- prefix and stand after the cursor; `has_more` says whether there are others; and afterwards the
-- cache holds all paths in order.
pub list_signal_paths_page_lem :
    (prefix cursor : Str) (limit : ℕ) (db : WaveDatabase)
    → IsCacheSound db
    → AreDistinct (keys db.signal_info)
    → let found = select (wanted prefix cursor) (sort_paths (keys db.signal_info)) in
      (p : Page) × (db' : WaveDatabase) × (list_signal_paths_page prefix cursor limit db
        ≡ some (p, db'))
      × (p.page ≡ take (page_limit limit) found)
      × (p.has_more ≡ ltb (page_limit limit) (length found))
      × IsCacheSound db'
      × Ascending db'.sorted_signal_paths_cache
unfolding list_signal_paths_page
list_signal_paths_page_lem prefix cursor limit db sound distinct =
    let sorted = sort_paths-Ascending (keys db.signal_info) distinct in
    let filled = fill_sorted_paths_lem db sound in
    let both = page_of-eq prefix cursor limit (sort_paths (keys db.signal_info)) sorted in
    (
      page_of prefix cursor limit (fill_sorted_paths db).sorted_signal_paths_cache,
      fill_sorted_paths db,
      refl,
      rw (filled.0) both.0,
      rw (filled.0) both.1,
      (λ _. rw (filled.0, filled.1)),
      rw (filled.0) sorted,
    )
