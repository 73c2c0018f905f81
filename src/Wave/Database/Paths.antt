-- ===== src/Wave/Database/Paths.antt =====
-- list_signal_paths_page of WaveDatabase.cpp: the signals' paths in order, a page at a time.
-- std::sort is an insertion sort by the order of std::string.
pub mod Order
use auto_waveform_debugger.Base.{
  ℕ, zero, suc, ◌+◌, ◌≡◌, Bool, true, false, not, ◌&&◌, ◌||◌, Option, none, some, List, [], ◌∷◌,
  Str, if◌then◌else◌, is_empty, ltb, length, last?, ◌==◌,
}
use auto_waveform_debugger.Base.Text.{starts_with, str_lt}
use auto_waveform_debugger.Base.Dict.{Dict}
use auto_waveform_debugger.Wave.Signal.{SignalInfo}
use auto_waveform_debugger.Wave.Database.{WaveDatabase}

unfoldable pub insert_sorted : Str → List Str → List Str
insert_sorted s [] = s ∷ []
insert_sorted s (t ∷ ts) = if str_lt t s then t ∷ insert_sorted s ts else s ∷ t ∷ ts

unfoldable pub sort_paths : List Str → List Str
unfolding insert_sorted
sort_paths [] = []
sort_paths (s ∷ ss) = insert_sorted s (sort_paths ss)

unfoldable pub keys {ℓ} : {V : Type ℓ} → List (Str × V) → List Str
keys [] = []
keys ((k, v) ∷ m) = k ∷ keys m

unfoldable pub fill_sorted_paths : WaveDatabase → WaveDatabase
unfolding sort_paths keys
fill_sorted_paths db = if db.sorted_signal_paths_valid then db else record db {
  sorted_signal_paths_cache = sort_paths (keys db.signal_info);
  sorted_signal_paths_valid = true;
}

-- The elements from std::lower_bound(s) on, and from std::upper_bound(s) on, as in Timeline.
unfoldable pub paths_from : Str → List Str → List Str
paths_from s [] = []
paths_from s (t ∷ ts) = if str_lt t s then paths_from s ts else t ∷ ts

unfoldable pub paths_after : Str → List Str → List Str
paths_after s [] = []
paths_after s (t ∷ ts) = if str_lt s t then t ∷ ts else paths_after s ts

unfoldable pub matches_prefix : Str → Str → Bool
matches_prefix prefix path = is_empty prefix || starts_with prefix path

-- The later of the two iterators: the one with fewer elements before the end.
unfoldable pub begin_paths : Str → Str → List Str → List Str
unfolding paths_from paths_after
begin_paths prefix cursor all =
    let begin_it = if is_empty prefix then all else paths_from prefix all in
    let cursor_it = paths_after cursor all in
    if is_empty cursor
    then begin_it
    else if ltb (length cursor_it) (length begin_it)
    then cursor_it
    else begin_it

-- Both loops stop at a path above the prefix that does not match it.
abbrev pub past_prefix : Str → Str → Bool
past_prefix prefix path = not (is_empty prefix) && str_lt prefix path

-- The first loop: the page, and the iterator where it stopped. `room` is limit - page.size().
unfoldable pub fill_page : Str → ℕ → List Str → List Str × List Str
fill_page prefix zero it = ([], it)
fill_page prefix (suc room) [] = ([], [])
fill_page prefix (suc room) (path ∷ it) = elim (matches_prefix prefix path) [
  | true ↦ let (page, rest) = fill_page prefix room it in (path ∷ page, rest)
  | false ↦ elim (past_prefix prefix path) [
    | true ↦ ([], path ∷ it)
    | false ↦ fill_page prefix (suc room) it
  ]
]

-- The second loop.
unfoldable pub more_paths : Str → List Str → Bool
more_paths prefix [] = false
more_paths prefix (path ∷ it) = elim (matches_prefix prefix path) [
  | true ↦ true
  | false ↦ elim (past_prefix prefix path) [ true ↦ false | false ↦ more_paths prefix it ]
]

pub record Page : Type 0 where
  pub page : List Str
  pub has_more : Bool
  pub next_cursor : Str

abbrev pub cursor_of : Bool → List Str → Str
cursor_of false page = []
cursor_of true page = elim (last? page) [ none ↦ [] | some path ↦ path ]

unfoldable pub page_of : Str → Str → ℕ → List Str → Page
unfolding begin_paths fill_page more_paths
page_of prefix cursor limit all =
    let (page, it) =
      fill_page prefix (if limit == 0 then 1 else limit) (begin_paths prefix cursor all) in
    let has_more = more_paths prefix it in
    record { page = page; has_more = has_more; next_cursor = cursor_of has_more page }

unfoldable pub list_signal_paths_page : Str → Str → ℕ → WaveDatabase → Option (Page × WaveDatabase)
unfolding fill_sorted_paths page_of
list_signal_paths_page prefix cursor limit db =
    let db' = fill_sorted_paths db in
    some (page_of prefix cursor limit db'.sorted_signal_paths_cache, db')
