-- ===== src/Api/Dump/Changes.antt =====
-- What dump_waveform_data of AgentAPI.cpp is to record of a signal, as a pass over all its transitions
-- from the first.
use auto_waveform_debugger.Base.{
  ℕ, ◌≤◌, ◌≡◌, refl, sym, ap, ◌∙◌, Bool, true, false, not, ◌&&◌, some, List, [], ◌∷◌, ◌++◌, Str,
  codes, str_eq, arith, leb, ltb, if◌then◌else◌, last?, Bool-cases, inl, inr, All,
}
use auto_waveform_debugger.Wave.Signal.{Transition, SignalInfo}
use auto_waveform_debugger.Wave.Timeline.{
  from_lower, until_lower, value_or_unknown, unknown, SortedFrom, IsSorted,
}
use auto_waveform_debugger.Wave.Database.{WaveDatabase, get_signal_info, get_transitions}
use auto_waveform_debugger.Wave.Database.Loading.{IsLoaded}
use auto_waveform_debugger.Api.Values.{simplify_scalar_value}
use auto_waveform_debugger.Api.Reply.{>>=-eq_some}
use auto_waveform_debugger.Api.History.{classify_transition_event}
use auto_waveform_debugger.Api.History.Window.{from_lower-SortedFrom}
use auto_waveform_debugger.Api.Dump.{DumpTransitionRecord, records_from, collect_records}

-- A value as it is shown.
abbrev pub shown : SignalInfo → Str → Str
shown info value = if leb info.width 1 then simplify_scalar_value value else value

abbrev pub event_of : Bool → Str → Str → Str
event_of is_scalar before after =
    if not is_scalar
    then codes "toggle"
    else if str_eq before (codes "0") && str_eq after (codes "1")
    then codes "posedge"
    else if str_eq before (codes "1") && str_eq after (codes "0")
    then codes "negedge"
    else codes "anyedge"

abbrev pub change_to : SignalInfo → Str → Transition → DumpTransitionRecord
change_to info before x = record {
  timestamp = x.timestamp;
  signal = info.path;
  event = event_of (leb info.width 1) (shown info before) (shown info x.value);
  value_before = shown info before;
  value_after = shown info x.value;
  glitch = x.is_glitch;
}

-- The transitions of the window at which the shown value changes.
unfoldable pub changes : SignalInfo → ℕ → ℕ → Str → List Transition → List DumpTransitionRecord
changes info start_time end_time before [] = []
changes info start_time end_time before (x ∷ xs) =
    let rest = changes info start_time end_time x.value xs in
    if (leb start_time x.timestamp && leb x.timestamp end_time)
      && not (str_eq (shown info before) (shown info x.value))
    then change_to info before x ∷ rest
    else rest

changes-past :
    (info : SignalInfo) (start_time end_time n : ℕ) (before : Str) (xs : List Transition)
    → SortedFrom n xs
    → ltb end_time n ≡ true
    → changes info start_time end_time before xs ≡ []
unfolding changes
changes-past info start_time end_time n before [] s h = refl
changes-past info start_time end_time n before (x ∷ xs) s h =
    ground (arith, changes-past info start_time end_time x.timestamp x.value xs s.1 (ground arith))

records_from-eq :
    (info : SignalInfo) (start_time end_time n : ℕ) (before : Str) (it : List Transition)
    → SortedFrom n it
    → start_time ≤ n
    → records_from info end_time before it ≡ changes info start_time end_time before it
unfolding records_from changes classify_transition_event
records_from-eq info start_time end_time n before [] s h = refl
records_from-eq info start_time end_time n before (x ∷ it) s h =
    let reached : leb start_time x.timestamp ≡ true = ground arith in
    let rest = records_from-eq info start_time end_time x.timestamp x.value it s.1 (omega arith) in
    elim (Bool-cases (leb x.timestamp end_time)) [
      | inl here ↦ elim (Bool-cases (str_eq (shown info before) (shown info x.value))) [
        | inl same ↦ rw (here, reached, same) rest
        | inr other ↦ elim (Bool-cases (leb info.width 1)) [
          | inl scalar ↦
              let apart : str_eq (simplify_scalar_value before) (simplify_scalar_value x.value)
                  ≡ false =
                rw scalar at other in
              rw (here, reached, scalar, apart, rest) refl
          | inr vector ↦
              let apart : str_eq before x.value ≡ false = rw vector at other in
              rw (here, reached, vector, apart, rest) refl
        ]
      ]
      | inr past ↦
          rw (past, reached)
            (sym (changes-past info start_time end_time x.timestamp x.value it s.1 (ground arith)))
    ]

-- The value behind transitions, from the value in front of them.
unfoldable value_behind : Str → List Transition → Str
value_behind before [] = before
value_behind before (x ∷ xs) = value_behind x.value xs

last-value_behind :
    (x : Transition) (xs : List Transition)
    → value_or_unknown (last? (x ∷ xs)) ≡ value_behind x.value xs
unfolding value_behind
last-value_behind x [] = refl
last-value_behind x (y ∷ xs) = last-value_behind y xs

last_lem : (xs : List Transition) → value_or_unknown (last? xs) ≡ value_behind unknown xs
unfolding value_behind
last_lem [] = refl
last_lem (x ∷ xs) = last-value_behind x xs

-- The transitions before the window leave only a value.
changes-from_lower :
    (info : SignalInfo) (start_time end_time : ℕ) (before : Str) (xs : List Transition)
    → changes info start_time end_time
        (value_behind before (until_lower start_time xs))
        (from_lower start_time xs)
      ≡ changes info start_time end_time before xs
unfolding changes from_lower until_lower value_behind
changes-from_lower info start_time end_time before [] = refl
changes-from_lower info start_time end_time before (x ∷ xs) =
    elim (Bool-cases (ltb x.timestamp start_time)) [
      | inl earlier ↦
          let early : leb start_time x.timestamp ≡ false = ground arith in
          rw (earlier, early) (changes-from_lower info start_time end_time x.value xs)
      | inr inside ↦ rw inside refl
    ]

-- Reads of the path change nothing, and its transitions are in time order.
abbrev pub IsInOrder : WaveDatabase → Str → Type 0
IsInOrder db path =
    (info : SignalInfo) × (trans : List Transition) × IsLoaded db path info trans × IsSorted trans

-- The changes of all paths in the window, one path behind the other.
abbrev pub AreChanges : WaveDatabase → ℕ → ℕ → List Str → List DumpTransitionRecord → Type 0
AreChanges db start_time end_time [] records = records ≡ []
AreChanges db start_time end_time (path ∷ paths) records =
    (info : SignalInfo) × (trans : List Transition) × (later : List DumpTransitionRecord) × IsLoaded
      db path info trans
    × (records ≡ changes info start_time end_time unknown trans ++ later)
    × AreChanges db start_time end_time paths later

records_of_signal :
    (info : SignalInfo) (start_time end_time : ℕ) (trans : List Transition)
    → IsSorted trans
    → records_from info end_time
        (value_or_unknown (last? (until_lower start_time trans)))
        (from_lower start_time trans)
      ≡ changes info start_time end_time unknown trans
records_of_signal info start_time end_time trans sorted =
    ap (λ v. records_from info end_time v (from_lower start_time trans)) (last_lem _)
    ∙ records_from-eq info start_time end_time start_time _ _
        (from_lower-SortedFrom start_time 0 trans sorted) (omega arith)
    ∙ changes-from_lower info start_time end_time unknown trans

pub collect_records-AreChanges :
    (paths : List Str) (start_time end_time : ℕ) (db : WaveDatabase)
    → All (IsInOrder db) paths
    → (records : List DumpTransitionRecord) × (collect_records paths start_time end_time db
        ≡ some (records, db))
      × AreChanges db start_time end_time paths records
unfolding collect_records
collect_records-AreChanges [] start_time end_time db h = ([], refl, refl)
collect_records-AreChanges (path ∷ paths) start_time end_time db h =
    let (info, trans, loaded, sorted) = h.0 in
    let (later, others, rest) = collect_records-AreChanges paths start_time end_time db h.1 in
    (
      records_from info end_time (value_or_unknown (last? (until_lower start_time trans)))
            (from_lower start_time trans)
          ++ later,
      >>=-eq_some (get_signal_info path) _ db info loaded.described
          ∙ >>=-eq_some (get_transitions path) _ db trans loaded.read
          ∙ >>=-eq_some (collect_records paths start_time end_time) _ db later others,
      (
        info,
        trans,
        later,
        loaded,
        ap (λ l. l ++ later) (records_of_signal info start_time end_time trans sorted),
        rest,
      ),
    )
