-- ===== src/Trace/TopK.antt =====
-- The selection of the least items of a scan: db/ParallelTopK.h. A heap is a list of its items from
-- the largest down, of which the code reads the front. Which worker takes the next chunk is a list
-- of workers, the schedule; the collectors of the workers are theirs alone.
pub mod Sorted
pub mod Kept
pub mod Workers
use auto_waveform_debugger.Base.{
  ℕ, zero, suc, ◌+◌, ◌-◌, ◌/◌, min, max, Bool, true, false, not, ◌&&◌, ◌||◌, Option, none, some,
  List, [], ◌∷◌, ◌++◌, length, take, replicate, if◌then◌else◌, ltb, leb, ◌==◌,
}

abbrev pub min_items : ℕ
min_items = 32768

abbrev pub max_threads : ℕ
max_threads = 8

abbrev pub chunk_size : ℕ
chunk_size = 8192

module _ {ℓ} {A : Type ℓ} (less : A → A → Bool) where
  -- std::sort
  unfoldable pub insert_by : A → List A → List A
  insert_by x [] = x ∷ []
  insert_by x (y ∷ ys) = if less x y then x ∷ y ∷ ys else y ∷ insert_by x ys

  unfoldable pub insert_all : List A → List A → List A
  unfolding insert_by
  insert_all [] s = s
  insert_all (x ∷ xs) s = insert_by x (insert_all xs s)

  abbrev pub sort_by : List A → List A
  sort_by xs = insert_all xs []

  -- std::push_heap; std::pop_heap removes the front.
  unfoldable pub push_heap : A → List A → List A
  push_heap x [] = x ∷ []
  push_heap x (y ∷ ys) = if less y x then x ∷ y ∷ ys else y ∷ push_heap x ys

  abbrev pub replace_front : A → List A → List A
  replace_front x [] = []
  replace_front x (y ∷ ys) = if less x y then push_heap x ys else y ∷ ys

  -- TopKCollector::Push
  unfoldable pub push : ℕ → A → List A → List A
  unfolding push_heap
  push limit x items =
      if limit == 0
      then items
      else if ltb (length items) limit
      then push_heap x items
      else replace_front x items

  -- Pushes one after another.
  abbrev pub push_all : ℕ → List A → List A → List A
  push_all limit [] items = items
  push_all limit (x ∷ xs) items = push_all limit xs (push limit x items)

-- TopKCollector::Full, and TopKCollector::Worst where there is one.
abbrev pub is_full {ℓ} : {A : Type ℓ} → ℕ → List A → Bool
is_full limit items = leb limit (length items)

abbrev pub worst? {ℓ} : {A : Type ℓ} → List A → Option A
worst? [] = none
worst? (x ∷ xs) = some x

-- The number of workers, for the number of items and what std::thread::hardware_concurrency gives.
unfoldable pub thread_count : ℕ → ℕ → ℕ
thread_count hardware n =
    if leb min_items n
    then min (max 1 hardware) (min max_threads ((n + chunk_size - 1) / chunk_size))
    else 1

-- collectors[t] is changed by f.
unfoldable pub modify {ℓ} : {A : Type ℓ} → ℕ → (A → A) → List A → List A
modify t f [] = []
modify zero f (c ∷ cs) = f c ∷ cs
modify (suc t) f (c ∷ cs) = c ∷ modify t f cs

unfoldable pub concat {ℓ} : {A : Type ℓ} → List (List A) → List A
concat [] = []
concat (c ∷ cs) = c ++ concat cs

module _ {ℓ} {A : Type ℓ} (n : ℕ) (scan : ℕ → ℕ → List A → List A) where
  -- The workers take chunks in the order of the schedule, until none is left.
  unfoldable pub run_workers : List ℕ → ℕ → List (List A) → ℕ × List (List A)
  unfolding modify
  run_workers [] next collectors = (next, collectors)
  run_workers (t ∷ schedule) next collectors =
      let last : ℕ × List (List A) = (next, collectors) in
      let rest =
        run_workers schedule (next + chunk_size)
          (modify t (scan next (min n (next + chunk_size))) collectors) in
      if leb n next then last else rest

  -- None where chunks are left when the schedule ends: a worker is still to take them.
  abbrev pub finished : ℕ × List (List A) → Option (List A)
  finished (next, collectors) = if leb n next then some (concat collectors) else none

  unfoldable pub merged_items : ℕ → List ℕ → Option (List A)
  unfolding run_workers concat
  merged_items threads schedule =
      if leb threads 1
      then some (scan 0 n [])
      else finished (run_workers schedule 0 (replicate threads []))

-- The merged items are sorted and cut.
abbrev pub cut {ℓ} : {A : Type ℓ} → (A → A → Bool) → ℕ → Option (List A) → Option (List A)
cut less limit none = none
cut less limit (some merged) = some (take limit (sort_by less merged))

unfoldable pub parallel_top_k {ℓ} :
    {A : Type ℓ} → (A → A → Bool) → ℕ → List ℕ → ℕ → ℕ → (ℕ → ℕ → List A → List A) → Option (List A)
parallel_top_k less hardware schedule n limit scan =
    if limit == 0 || n == 0
    then some []
    else cut less limit (merged_items n scan (thread_count hardware n) schedule)
