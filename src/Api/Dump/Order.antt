-- ===== src/Api/Dump/Order.antt =====
-- The order of the records that dump_waveform_data of AgentAPI.cpp writes.
use auto_waveform_debugger.Base.{
  ℕ, ◌+◌, ◌≡◌, refl, ap, ◌∙◌, Bool, true, false, List, [], ◌∷◌, Str, arith, if◌then◌else◌,
  Bool-cases, inl, inr, All, some, codes, ◌<◌, ◌⊎◌, ltb, ◌==◌,
}
use auto_waveform_debugger.Base.Text.{str_lt}
use auto_waveform_debugger.Api.Dump.{
  DumpTransitionRecord, dump_transition_record_less, insert_record, sort_records, collect_records,
  transitions, write_dump,
}
use auto_waveform_debugger.Api.Dump.Changes.{IsInOrder, AreChanges, collect_records-AreChanges}
use auto_waveform_debugger.Api.Arguments.{Argument}
use auto_waveform_debugger.Api.Reply.{>>=-eq_some}
use auto_waveform_debugger.Wave.Database.{WaveDatabase}

str_lt_asym : (s t : Str) → str_lt s t ≡ true → str_lt t s ≡ false
str_lt_asym s [] h = cc
str_lt_asym [] (b ∷ t) h = refl
str_lt_asym (a ∷ s) (b ∷ t) h = ground (arith, str_lt_asym s t)

str_ge_trans : (s t u : Str) → str_lt s t ≡ false → str_lt t u ≡ false → str_lt s u ≡ false
str_ge_trans s t [] h k = refl
str_ge_trans [] [] (c ∷ u) h k = cc
str_ge_trans [] (b ∷ t) (c ∷ u) h k = cc
str_ge_trans (a ∷ s) [] (c ∷ u) h k = cc
str_ge_trans (a ∷ s) (b ∷ t) (c ∷ u) h k = ground (arith, str_ge_trans s t u)

module _ (r s t : DumpTransitionRecord) where
  less_asym : dump_transition_record_less s r ≡ true → dump_transition_record_less r s ≡ false
  unfolding dump_transition_record_less
  less_asym h = ground (arith, str_lt_asym s.signal r.signal)

  not_less_trans :
      dump_transition_record_less t s ≡ false
      → dump_transition_record_less s r ≡ false
      → dump_transition_record_less t r ≡ false
  unfolding dump_transition_record_less
  not_less_trans h k = ground (arith, str_ge_trans t.signal s.signal r.signal)

-- No record is less than one in front of it.
abbrev AreSorted : List DumpTransitionRecord → Type 0
AreSorted [] = Unit
AreSorted (r ∷ records) =
    All (λ s. dump_transition_record_less s r ≡ false) records × AreSorted records

All-insert_record :
    (P : DumpTransitionRecord → Type 0) (r : DumpTransitionRecord)
    (records : List DumpTransitionRecord)
    → P r
    → All P records
    → All P (insert_record r records)
unfolding insert_record
All-insert_record P r [] p h = (p, tt)
All-insert_record P r (s ∷ records) p h = elim (Bool-cases (dump_transition_record_less s r)) [
  | inl less ↦ rw less (h.0, All-insert_record P r records p h.1)
  | inr other ↦ rw other (p, h)
]

not_less-All :
    (r s : DumpTransitionRecord) (records : List DumpTransitionRecord)
    → dump_transition_record_less s r ≡ false
    → All (λ t. dump_transition_record_less t s ≡ false) records
    → All (λ t. dump_transition_record_less t r ≡ false) records
not_less-All r s [] k h = tt
not_less-All r s (t ∷ records) k h = (not_less_trans r s t h.0 k, not_less-All r s records k h.1)

insert_record-AreSorted :
    (r : DumpTransitionRecord) (records : List DumpTransitionRecord)
    → AreSorted records
    → AreSorted (insert_record r records)
unfolding insert_record
insert_record-AreSorted r [] h = (tt, tt)
insert_record-AreSorted r (s ∷ records) h = elim (Bool-cases (dump_transition_record_less s r)) [
  | inl less ↦ rw less (
    All-insert_record (λ t. dump_transition_record_less t s ≡ false) r records
        (less_asym r s s less) h.0,
    insert_record-AreSorted r records h.1,
  )
  | inr other ↦ rw other ((other, not_less-All r s records other h.0), h)
]

sort_records-AreSorted : (records : List DumpTransitionRecord) → AreSorted (sort_records records)
unfolding sort_records
sort_records-AreSorted [] = tt
sort_records-AreSorted (r ∷ records) =
    insert_record-AreSorted r (sort_records records) (sort_records-AreSorted records)

-- How many records pass a test.
unfoldable pub count_if : (DumpTransitionRecord → Bool) → List DumpTransitionRecord → ℕ
count_if f [] = 0
count_if f (r ∷ records) = (if f r then 1 else 0) + count_if f records

count_if-insert_record :
    (f : DumpTransitionRecord → Bool) (r : DumpTransitionRecord)
    (records : List DumpTransitionRecord)
    → count_if f (insert_record r records) ≡ (if f r then 1 else 0) + count_if f records
unfolding count_if insert_record
count_if-insert_record f r [] = refl
count_if-insert_record f r (s ∷ records) = elim (Bool-cases (dump_transition_record_less s r)) [
  | inl less ↦ rw (less, count_if-insert_record f r records) (omega arith)
  | inr other ↦ rw other refl
]

count_if-sort_records :
    (f : DumpTransitionRecord → Bool) (records : List DumpTransitionRecord)
    → count_if f (sort_records records) ≡ count_if f records
unfolding count_if sort_records
count_if-sort_records f [] = refl
count_if-sort_records f (r ∷ records) =
    count_if-insert_record f r (sort_records records)
    ∙ ap (λ n. (if f r then 1 else 0) + n) (count_if-sort_records f records)

-- Byte by byte, with a text behind its beginnings.
abbrev pub LexLe : Str → Str → Type 0
LexLe [] t = Unit
LexLe (a ∷ s) [] = ⊥
LexLe (a ∷ s) (b ∷ t) = (a < b) ⊎ ((a ≡ b) × LexLe s t)

LexLe-str_lt : (s t : Str) → str_lt t s ≡ false → LexLe s t
LexLe-str_lt [] t h = tt
LexLe-str_lt (a ∷ s) [] h = cc
LexLe-str_lt (a ∷ s) (b ∷ t) h = elim (Bool-cases (ltb a b)) [
  | inl less ↦ inl (ground arith)
  | inr not_less ↦ inr (ground arith, LexLe-str_lt s t (ground arith))
]

-- By time, and at one time by signal.
abbrev pub IsBefore : DumpTransitionRecord → DumpTransitionRecord → Type 0
IsBefore r s = (r.timestamp < s.timestamp) ⊎ ((r.timestamp ≡ s.timestamp) × LexLe r.signal s.signal)

-- Each record is before all behind it.
abbrev pub AreOrdered : List DumpTransitionRecord → Type 0
AreOrdered [] = Unit
AreOrdered (r ∷ records) = All (IsBefore r) records × AreOrdered records

IsBefore-less :
    (r s : DumpTransitionRecord) → dump_transition_record_less s r ≡ false → IsBefore r s
unfolding dump_transition_record_less
IsBefore-less r s h = elim (Bool-cases (s.timestamp == r.timestamp)) [
  | inl same ↦ inr (ground arith, LexLe-str_lt r.signal s.signal (ground arith))
  | inr other ↦ inl (ground arith)
]

All-IsBefore :
    (r : DumpTransitionRecord) (records : List DumpTransitionRecord)
    → All (λ s. dump_transition_record_less s r ≡ false) records
    → All (IsBefore r) records
All-IsBefore r [] h = tt
All-IsBefore r (s ∷ records) h = (IsBefore-less r s h.0, All-IsBefore r records h.1)

AreOrdered-sorted : (records : List DumpTransitionRecord) → AreSorted records → AreOrdered records
AreOrdered-sorted [] h = tt
AreOrdered-sorted (r ∷ records) h = (All-IsBefore r records h.0, AreOrdered-sorted records h.1)

-- In the mode transitions, for paths that can be read and whose transitions are in time order, all
-- transitions of each path in the window at which its shown value changes are written; what is
-- written is in order, by time and at one time by signal; for every test, as many records that pass
-- it are written as there are such changes; and nothing is changed.
pub write_dump-AreOrdered :
    (paths : List Str) (start_time end_time : ℕ) (period : Argument) (radix : Str)
    (db : WaveDatabase) (f : DumpTransitionRecord → Bool)
    → All (IsInOrder db) paths
    → (collected records : List DumpTransitionRecord) × (write_dump paths start_time end_time
          (codes "transitions")
          period
          radix
          db
        ≡ some (transitions records, db))
      × AreChanges db start_time end_time paths collected
      × AreOrdered records
      × (count_if f records ≡ count_if f collected)
unfolding write_dump
write_dump-AreOrdered paths start_time end_time period radix db f h =
    let (collected, returns, all_changes) =
      collect_records-AreChanges paths start_time end_time db h in
    (
      collected,
      sort_records collected,
      >>=-eq_some (collect_records paths start_time end_time) _ db collected returns,
      all_changes,
      AreOrdered-sorted _ (sort_records-AreSorted collected),
      count_if-sort_records f collected,
    )
