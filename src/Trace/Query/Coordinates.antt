-- ===== src/Trace/Query/Coordinates.antt =====
-- The search for the coordinates of a signal in RunTraceWithSession (query/TraceQuery.cc).
use auto_waveform_debugger.Base.{
  ℕ, zero, suc, ◌+◌, ◌-◌, ◌/◌, ◌≤◌, ◌<◌, ◌≡◌, refl, sym, ap, false, Option, none, some, List, [],
  ◌∷◌, length, get_elem?, if◌then◌else◌, ltb, ltb→lt, ◌==◌, arith, Bool-cases, inl, inr,
}
use auto_waveform_debugger.Trace.Query.{SignalCoordinates}

-- rows[i].signal_id; the code reads no row out of range.
abbrev pub id_at : List SignalCoordinates → ℕ → ℕ
id_at [] i = 0
id_at (row ∷ rows) zero = row.signal_id
id_at (row ∷ rows) (suc i) = id_at rows i

-- The loop over lo and hi, on fuel; none where the fuel runs out.
unfoldable pub search_rows : List SignalCoordinates → ℕ → ℕ → ℕ → ℕ → Option ℕ
search_rows rows id zero lo hi = if ltb lo hi then none else some lo
search_rows rows id (suc fuel) lo hi =
    let mid = lo + (hi - lo) / 2 in
    let right = search_rows rows id fuel (mid + 1) hi in
    let left = search_rows rows id fuel lo mid in
    if ltb lo hi then (if ltb (id_at rows mid) id then right else left) else some lo

abbrev pub with_id : ℕ → Option SignalCoordinates → Option SignalCoordinates
with_id id none = none
with_id id (some row) = if row.signal_id == id then some row else none

-- The row at the end of the search, if it is of the signal.
abbrev pub row_at : List SignalCoordinates → ℕ → Option ℕ → Option (Option SignalCoordinates)
row_at rows id none = none
row_at rows id (some lo) = some (with_id id (get_elem? rows lo))

-- None where the search does not end; some none where the signal has no row.
unfoldable pub find_coordinates : List SignalCoordinates → ℕ → Option (Option SignalCoordinates)
find_coordinates rows id = row_at rows id (search_rows rows id (length rows) 0 (length rows))

-- The first row of the signal, from a search through all rows.
abbrev pub first_row_of : List SignalCoordinates → ℕ → Option SignalCoordinates
first_row_of [] id = none
first_row_of (row ∷ rows) id = if row.signal_id == id then some row else first_row_of rows id

-- The rows are in the order of their signals.
abbrev pub AreInOrder : List SignalCoordinates → Type 0
AreInOrder rows = (i j : ℕ) → i ≤ j → j < length rows → id_at rows i ≤ id_at rows j

abbrev Below : List SignalCoordinates → ℕ → ℕ → Type 0
Below rows id k = (i : ℕ) → i < k → id_at rows i < id

abbrev Above : List SignalCoordinates → ℕ → ℕ → Type 0
Above rows id k = (i : ℕ) → k ≤ i → i < length rows → id ≤ id_at rows i

search_rows_lem :
    (rows : List SignalCoordinates) (id fuel lo hi : ℕ)
    → AreInOrder rows
    → hi ≤ lo + fuel
    → hi ≤ length rows
    → Below rows id lo
    → Above rows id hi
    → (k : ℕ) × (search_rows rows id fuel lo hi ≡ some k) × Below rows id k × Above rows id k
unfolding search_rows
search_rows_lem rows id zero lo hi order enough inside below above =
    (lo, ground arith, below, λ i l m. above i (omega arith) m)
search_rows_lem rows id (suc fuel) lo hi order enough inside below above =
    let mid = lo + (hi - lo) / 2 in
    elim (Bool-cases (ltb lo hi)) [
      | inr done ↦ (lo, rw done refl, below, λ i l m. above i (ground arith) m)
      | inl more ↦
          let strict : lo < hi = ltb→lt lo hi more in
          elim (Bool-cases (ltb (id_at rows mid) id)) [
            | inl less ↦
                let (k, e, b, a) =
                  search_rows_lem rows id fuel (mid + 1) hi order (omega arith) inside
                    (λ i l.
                      let low = order i mid (omega arith) (omega arith) in
                      let here = ltb→lt _ _ less in omega arith)
                    above in
                (k, rw (more, less) e, b, a)
            | inr not_less ↦
                let (k, e, b, a) =
                  search_rows_lem rows id fuel lo mid order (omega arith) (omega arith) below
                    (λ i l m.
                      let high = order mid i l m in
                      let here : id ≤ id_at rows mid = ground arith in omega arith) in
                (k, rw (more, not_less) e, b, a)
          ]
    ]

-- A search ends, whatever the rows.
search_rows_ends :
    (rows : List SignalCoordinates) (id fuel lo hi : ℕ)
    → hi ≤ lo + fuel
    → (k : ℕ) × (search_rows rows id fuel lo hi ≡ some k)
unfolding search_rows
search_rows_ends rows id zero lo hi enough = (lo, ground arith)
search_rows_ends rows id (suc fuel) lo hi enough =
    let mid = lo + (hi - lo) / 2 in
    elim (Bool-cases (ltb lo hi)) [
      | inr done ↦ (lo, rw done refl)
      | inl more ↦
          let strict : lo < hi = ltb→lt lo hi more in
          elim (Bool-cases (ltb (id_at rows mid) id)) [
            | inl less ↦
                let (k, e) = search_rows_ends rows id fuel (mid + 1) hi (omega arith) in
                (k, rw (more, less) e)
            | inr not_less ↦
                let (k, e) = search_rows_ends rows id fuel lo mid (omega arith) in
                (k, rw (more, not_less) e)
          ]
    ]

pub find_coordinates_ends :
    (rows : List SignalCoordinates) (id : ℕ)
    → (found : Option SignalCoordinates) × (find_coordinates rows id ≡ some found)
unfolding find_coordinates
find_coordinates_ends rows id =
    let (k, e) = search_rows_ends rows id (length rows) 0 (length rows) (omega arith) in
    (with_id id (get_elem? rows k), rw e refl)

row_at-none :
    (rows : List SignalCoordinates) (id : ℕ)
    → ((i : ℕ) → i < length rows → id < id_at rows i)
    → first_row_of rows id ≡ none
row_at-none [] id h = refl
row_at-none (row ∷ rows) id h =
    ground (arith, h 0, row_at-none rows id (λ i l. h (suc i) (omega arith)))

first_row_of_lem :
    (rows : List SignalCoordinates) (id k : ℕ)
    → AreInOrder rows
    → Below rows id k
    → Above rows id k
    → with_id id (get_elem? rows k) ≡ first_row_of rows id
first_row_of_lem [] id k order below above = refl
first_row_of_lem (row ∷ rows) id zero order below above = elim (Bool-cases (row.signal_id == id)) [
  | inl y ↦ rw y refl
  | inr n ↦
      let first : id < row.signal_id = ground (arith, above 0) in
      rw n (
        sym (
          row_at-none rows id
            (λ i l. let next = order 0 (suc i) (omega arith) (omega arith) in omega arith)))
]
first_row_of_lem (row ∷ rows) id (suc k) order below above =
    let other : (row.signal_id == id) ≡ false = ground (arith, below 0) in
    rw other (
      first_row_of_lem rows id k (λ i j l m. order (suc i) (suc j) (omega arith) (omega arith))
        (λ i l. below (suc i) (omega arith)) (λ i l m. above (suc i) (omega arith) (omega arith)))

-- In rows that are in the order of their signals, the search ends and finds what a search through
-- all rows finds.
pub find_coordinates_lem :
    (rows : List SignalCoordinates) (id : ℕ)
    → AreInOrder rows
    → find_coordinates rows id ≡ some (first_row_of rows id)
unfolding find_coordinates
find_coordinates_lem rows id order =
    let (k, e, below, above) =
      search_rows_lem rows id (length rows) 0 (length rows) order (omega arith) (omega arith)
        (λ i l. absurd (omega arith)) (λ i l m. absurd (omega arith)) in
    rw e (ap some (first_row_of_lem rows id k order below above))
