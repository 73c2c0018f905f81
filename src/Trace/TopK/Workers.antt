-- ===== src/Trace/TopK/Workers.antt =====
-- The workers together: whatever the schedule, the merged items hold the least of all items.
use mathlib.Core.Path.{fun_ext}
use mathlib.Core.List.{append_assoc}
use auto_waveform_debugger.Base.{
  ℕ, zero, suc, ◌+◌, ◌-◌, ◌*◌, ◌≤◌, ◌<◌, min, ◌≡◌, refl, sym, ap, ◌∙◌, Bool, true, some, List, [],
  ◌∷◌, ◌++◌, length, take, replicate, arith, All, Bool-cases, inl, inr, leb, leb→le, ◌==◌, ◌||◌,
  ==_iff, length-replicate,
}
use auto_waveform_debugger.Trace.TopK.{
  insert_by, insert_all, sort_by, modify, concat, run_workers, finished, merged_items, thread_count,
  cut, parallel_top_k, chunk_size, push_all,
}
use auto_waveform_debugger.Trace.TopK.Sorted.{
  take_idem, take_all, IsOrder, inserts_comm, inserts-append, inserts-insert, take-inserts,
}
use auto_waveform_debugger.Trace.TopK.Kept.{Kept, push_all-Kept}

-- The items of m indices from b on, for the items of each index.
abbrev pub emits {ℓ} : {A : Type ℓ} → (ℕ → List A) → ℕ → ℕ → List A
emits emit b zero = []
emits emit b (suc m) = emit b ++ emits emit (b + 1) m

pub suc-add : (m k : ℕ) → suc m + k ≡ suc (m + k)
suc-add m k = omega arith

pub emits-add {ℓ} :
    {A : Type ℓ} (emit : ℕ → List A) (b m k : ℕ)
    → emits emit b (m + k) ≡ emits emit b m ++ emits emit (b + m) k
emits-add emit b zero k = ap (emits emit b) (omega arith) ∙ ap (λ c. emits emit c k) (omega arith)
emits-add emit b (suc m) k =
    ap (emits emit b) (suc-add m k)
    ∙ ap (λ t. emit b ++ t)
        (emits-add emit (b + 1) m k
          ∙ ap (λ c. emits emit (b + 1) m ++ emits emit c k) (omega arith))
    ∙ sym (append_assoc (emit b) (emits emit (b + 1) m) (emits emit (b + suc m) k))

module _ {ℓ} {A : Type ℓ} (less : A → A → Bool) (order : IsOrder less) (k : ℕ) where
  abbrev sort : List A → List A
  sort = sort_by less

  abbrev inserts : List A → List A → List A
  inserts = insert_all less

  -- Each worker has the k least of its items.
  data AllKept : List (List A) → List (List A) → Type ℓ where
    nobody : AllKept [] []
    worker :
        {S c : List A} {Ss cs : List (List A)}
        → Kept less order k S c
        → AllKept Ss cs
        → AllKept (S ∷ Ss) (c ∷ cs)

  -- All items, sorted, of the sorted items of each worker.
  total : List (List A) → List A
  total [] = []
  total (S ∷ Ss) = inserts S (total Ss)

  inserts-inserts : (ys S s : List A) → inserts (inserts ys S) s ≡ inserts ys (inserts S s)
  unfolding insert_all
  inserts-inserts [] S s = refl
  inserts-inserts (y ∷ ys) S s =
      inserts-insert less order y (inserts ys S) s ∙ ap (insert_by less y) (inserts-inserts ys S s)

  total-modify :
      (t : ℕ) (ys : List A) {Ss cs : List (List A)}
      → AllKept Ss cs
      → t < length cs
      → total (modify t (inserts ys) Ss) ≡ inserts ys (total Ss)
  unfolding total modify
  total-modify t ys nobody l = absurd (omega arith)
  total-modify zero ys (worker {S} {c} {Ss} {cs} h hs) l = inserts-inserts ys S (total Ss)
  total-modify (suc t) ys (worker {S} {c} {Ss} {cs} h hs) l =
      ap (inserts S) (total-modify t ys hs (omega arith)) ∙ inserts_comm less order S ys (total Ss)

  modify-AllKept :
      (t : ℕ) (ys : List A) {Ss cs : List (List A)}
      → AllKept Ss cs
      → AllKept (modify t (inserts ys) Ss) (modify t (push_all less k ys) cs)
  unfolding modify
  modify-AllKept t ys nobody = nobody
  modify-AllKept zero ys (worker {S} {c} h hs) = worker (push_all-Kept less order k ys S c h) hs
  modify-AllKept (suc t) ys (worker h hs) = worker h (modify-AllKept t ys hs)

  length-modify :
      (t : ℕ) (f : List A → List A) (cs : List (List A)) → length (modify t f cs) ≡ length cs
  unfolding modify
  length-modify t f [] = refl
  length-modify zero f (c ∷ cs) = refl
  length-modify (suc t) f (c ∷ cs) = ap suc (length-modify t f cs)

  -- The k least of the merged items are the k least of all.
  take-concat :
      {Ss cs : List (List A)} → AllKept Ss cs → take k (sort (concat cs)) ≡ take k (total Ss)
  unfolding concat total insert_all
  take-concat nobody = refl
  take-concat (worker {S} {c} {Ss} {cs} h hs) =
      let rest = concat cs in
      ap (take k) (
        inserts-append less order c rest []
        ∙ inserts_comm less order c rest []
        ∙ ap (inserts rest) h.least)
      ∙ take-inserts less order k rest S
      ∙ ap (take k) (ap (inserts rest) (sym h.sorted) ∙ inserts_comm less order rest S [])
      ∙ sym (take-inserts less order k S (sort rest))
      ∙ ap (λ t. take k (inserts S t)) (take-concat hs)
      ∙ take-inserts less order k S (total Ss)

  module _ (n : ℕ) (scan : ℕ → ℕ → List A → List A) (emit : ℕ → List A)
      (pushes : (b m : ℕ) (items : List A)
        → scan b (b + m) items ≡ push_all less k (emits emit b m) items) where
    -- What the workers have seen when the next chunk starts at `next`.
    abbrev Seen : ℕ → List (List A) → Type ℓ
    Seen next cs =
        (Ss : List (List A)) × AllKept Ss cs × (total Ss ≡ sort (emits emit 0 (min n next)))

    step-Seen :
        (t next : ℕ) (cs : List (List A))
        → t < length cs
        → next < n
        → Seen next cs
        → Seen (next + chunk_size) (modify t (scan next (min n (next + chunk_size))) cs)
    step-Seen t next cs l more (Ss, kept, seen) =
        let m = min n (next + chunk_size) - next in
        let ys = emits emit next m in
        let same : scan next (min n (next + chunk_size)) ≡ push_all less k ys =
          fun_ext (λ items. ap (λ e. scan next e items) (omega arith) ∙ pushes next m items) in
        (
          modify t (inserts ys) Ss,
          rw same (modify-AllKept t ys kept),
          total-modify t ys kept l
              ∙ ap (inserts ys) seen
              ∙ inserts_comm less order ys (emits emit 0 (min n next)) []
              ∙ sym (inserts-append less order (emits emit 0 (min n next)) ys [])
              ∙ ap sort (
                  ap (λ c. emits emit 0 (min n next) ++ emits emit c m) (omega arith)
                  ∙ sym (emits-add emit 0 (min n next) m)
                  ∙ ap (emits emit 0) (omega arith)),
        )

    run-Seen :
        (schedule : List ℕ) (next : ℕ) (cs : List (List A))
        → All (λ t. t < length cs) schedule
        → n ≤ next + length schedule * chunk_size
        → Seen next cs
        → (n ≤ (run_workers n scan schedule next cs).0)
          × Seen (run_workers n scan schedule next cs).0 (run_workers n scan schedule next cs).1
    unfolding run_workers
    run-Seen [] next cs ts enough seen = (omega arith, seen)
    run-Seen (t ∷ schedule) next cs ts enough seen = elim (Bool-cases (leb n next)) [
      | inl done ↦ rw done (leb→le n next done, seen)
      | inr more ↦ rw more (
          run-Seen schedule (next + chunk_size)
            (modify t (scan next (min n (next + chunk_size))) cs)
            (rw (length-modify t (scan next (min n (next + chunk_size))) cs) ts.1) (omega arith)
            (step-Seen t next cs ts.0 (ground arith) seen))
    ]

    min-zero : min n 0 ≡ 0
    min-zero = omega arith

    Kept-none : Kept less order k [] []
    unfolding insert_all
    Kept-none = record { sorted = refl; least = sym (take_all k [] (omega arith)); ordered = tt }

    AllKept-replicate : (m : ℕ) → AllKept (replicate m []) (replicate m [])
    AllKept-replicate zero = nobody
    AllKept-replicate (suc m) = worker Kept-none (AllKept-replicate m)

    total-replicate : (m : ℕ) → total (replicate m []) ≡ []
    unfolding total insert_all
    total-replicate zero = refl
    total-replicate (suc m) = total-replicate m

    nothing_seen : [] ≡ sort (emits emit 0 (min n 0))
    unfolding insert_all
    nothing_seen = rw min-zero refl

    Seen-start : (m : ℕ) → Seen 0 (replicate m [])
    Seen-start m = (replicate m [], AllKept-replicate m, total-replicate m ∙ nothing_seen)

    finish : (r : ℕ × List (List A)) → n ≤ r.0 → finished n scan r ≡ some (concat r.1)
    finish (next, cs) h = ground arith

    nothing_kept : (k == 0 || n == 0) ≡ true → [] ≡ take k (sort (emits emit 0 n))
    unfolding insert_all
    nothing_kept h = elim (Bool-cases (k == 0)) [
      | inl e ↦ rw ((==_iff k 0).0 e) refl
      | inr e ↦
          let none_left : n ≡ 0 = ground arith in rw none_left (sym (take_all k [] (omega arith)))
    ]

    -- The least of the merged items are the least of all, and the workers end.
    merged_items_least :
        (threads : ℕ) (schedule : List ℕ)
        → All (λ t. t < threads) schedule
        → n ≤ length schedule * chunk_size
        → (merged : List A) × (merged_items n scan threads schedule ≡ some merged)
          × (take k (sort merged) ≡ take k (sort (emits emit 0 n)))
    unfolding merged_items
    merged_items_least threads schedule ts enough = elim (Bool-cases (leb threads 1)) [
      | inl alone ↦ rw alone (
        scan 0 n [],
        refl,
        ap (λ c. take k (sort c)) (ap (λ e. scan 0 e []) (omega arith) ∙ pushes 0 n [])
            ∙ ap (take k) (push_all-Kept less order k (emits emit 0 n) [] [] Kept-none).least
            ∙ take_idem k (sort (emits emit 0 n)),
      )
      | inr many ↦
          let (done, (Ss, kept, seen)) =
            run-Seen schedule 0 (replicate threads [])
              (rw (length-replicate {ℓ} {A = List A} threads []) ts) (omega arith)
              (Seen-start threads) in
          rw many (
            concat (run_workers n scan schedule 0 (replicate threads [])).1,
            finish (run_workers n scan schedule 0 (replicate threads [])) done,
            take-concat kept ∙ ap (take k) (seen ∙ ap (λ c. sort (emits emit 0 c)) (omega arith)),
          )
    ]

    -- For a total order, a scan that pushes items index by index, and a schedule that takes all
    -- chunks: the selection ends, and gives the first `limit` of all items in order.
    pub parallel_top_k_lem :
        (hardware : ℕ) (schedule : List ℕ)
        → All (λ t. t < thread_count hardware n) schedule
        → n ≤ length schedule * chunk_size
        → parallel_top_k less hardware schedule n k scan ≡ some (take k (sort (emits emit 0 n)))
    unfolding parallel_top_k
    parallel_top_k_lem hardware schedule ts enough =
        let (merged, e, least) = merged_items_least (thread_count hardware n) schedule ts enough in
        elim (Bool-cases (k == 0 || n == 0)) [
          | inl nothing ↦ rw nothing (ap some (nothing_kept nothing))
          | inr some_items ↦ rw some_items (ap (cut less k) e ∙ ap some least)
        ]
