-- ===== src/Wave/Vcd/Glitches.antt =====
-- The glitch marks of VcdAdapter.cpp, against the times of a signal's transitions.
use auto_waveform_debugger.Base.{
  ℕ, ◌≡◌, refl, ◌||◌, Option, none, some, List, [], ◌∷◌, ◌++◌, Str, arith, if◌then◌else◌, ==_iff,
  Option-cases, inl, inr, str_eq_iff,
}
use auto_waveform_debugger.Base.Dict
use auto_waveform_debugger.Wave.Signal.{Transition, FormatAdapter}
use auto_waveform_debugger.Wave.Vcd.{
  Reader, start, mark_last, changed_now, change_value, declare_var, read_lines, load_vcd,
}
use auto_waveform_debugger.Base.Scan.{word_at}
use auto_waveform_debugger.Wave.Vcd.Induction.{IsSame, read_lines_keeps, Advances-always}

abbrev head_time : List Transition → Option ℕ
head_time [] = none
head_time (x ∷ xs) = some x.timestamp

abbrev last_time : List Transition → Option ℕ
last_time [] = none
last_time (x ∷ []) = some x.timestamp
last_time (x ∷ y ∷ ys) = last_time (y ∷ ys)

-- Behind a transition at time `prev`: each transition is marked exactly where the one before it or
-- the one behind it has the same time.
abbrev pub AreMarked : Option ℕ → List Transition → Type 0
AreMarked prev [] = Unit
AreMarked prev (x ∷ xs) =
    (x.is_glitch ≡ (changed_now prev x.timestamp || changed_now (head_time xs) x.timestamp))
    × AreMarked (some x.timestamp) xs

-- The list after a change at `time`.
abbrev changed : List Transition → ℕ → Str → List Transition
changed trans time value =
    let is_glitch = changed_now (last_time trans) time in
    (if is_glitch then mark_last time trans else trans)
    ++ record { timestamp = time; value = value; is_glitch = is_glitch } ∷ []

head_time-changed :
    (y : Transition) (ys : List Transition) (time : ℕ) (value : Str)
    → head_time (changed (y ∷ ys) time value) ≡ some y.timestamp
unfolding mark_last
head_time-changed y [] time value = ground arith
head_time-changed y (z ∷ ys) time value = ground arith

last_time-append :
    (xs : List Transition) (x : Transition) → last_time (xs ++ x ∷ []) ≡ some x.timestamp
last_time-append [] x = refl
last_time-append (y ∷ []) x = refl
last_time-append (y ∷ z ∷ zs) x = last_time-append (z ∷ zs) x

-- The rest of a list changes as the list does.
changed-cons :
    (x y : Transition) (ys : List Transition) (time : ℕ) (value : Str)
    → changed (x ∷ y ∷ ys) time value ≡ x ∷ changed (y ∷ ys) time value
unfolding mark_last
changed-cons x y ys time value = ground arith

changed-AreMarked_cons :
    (prev : Option ℕ) (x : Transition) (xs : List Transition) (time : ℕ) (value : Str)
    → AreMarked prev (x ∷ xs)
    → AreMarked prev (changed (x ∷ xs) time value)
unfolding mark_last
changed-AreMarked_cons prev x [] time value h =
    ground (arith, ==_iff x.timestamp time, ==_iff time x.timestamp)
changed-AreMarked_cons prev x (y ∷ ys) time value h =
    rw (changed-cons x y ys time value, head_time-changed y ys time value)
      (h.0, changed-AreMarked_cons (some x.timestamp) y ys time value h.1)

changed-AreMarked :
    (trans : List Transition) (time : ℕ) (value : Str)
    → AreMarked none trans
    → AreMarked none (changed trans time value)
changed-AreMarked [] time value h = (refl, tt)
changed-AreMarked (x ∷ xs) time value h = changed-AreMarked_cons none x xs time value h

last_time-changed :
    (trans : List Transition) (time : ℕ) (value : Str)
    → last_time (changed trans time value) ≡ some time
last_time-changed trans time value =
    last_time-append (if changed_now (last_time trans) time then mark_last time trans else trans)
      (record { timestamp = time; value = value; is_glitch = changed_now (last_time trans) time })

abbrev last_of : Option (List Transition) → Option ℕ
last_of none = none
last_of (some trans) = last_time trans

-- The time of the last change is remembered for each identifier, and its list is marked.
record IsMarked (r : Reader) : Type 0 where
  last : (id : Str) → Dict.lookup id r.last_change_time ≡ last_of (Dict.lookup id r.id_transitions)
  marks :
      (id : Str) (trans : List Transition)
      → Dict.lookup id r.id_transitions ≡ some trans
      → AreMarked none trans

same-IsMarked : (r r' : Reader) → IsSame r r' → IsMarked r → IsMarked r'
same-IsMarked r r' s h = record {
  last = λ id. rw (s.last, s.lists) (h.last id);
  marks = λ id trans e. h.marks id trans (rw (s.lists) at e);
}

timed-IsMarked :
    (r : Reader) (time : ℕ) → Unit {0} → IsMarked r → IsMarked (record r { current_time = time })
timed-IsMarked r time ok h = record { last = h.last; marks = h.marks }

declare_var-IsMarked : (r : Reader) (ws : List Str) → IsMarked r → IsMarked (declare_var r ws)
unfolding declare_var
declare_var-IsMarked r ws h = elim (Option-cases (Dict.lookup (word_at ws 3) r.id_transitions)) [
  | inr (trans, e) ↦ record {
    last = λ id. ground (arith, h.last id);
    marks = λ id t f. ground (arith, h.marks id t);
  }
  | inl e ↦ record {
    last = λ id. ground (
      arith,
      h.last id,
      h.last (word_at ws 3),
      str_eq_iff (word_at ws 3) id,
      Dict.lookup-insert (word_at ws 3) id [] r.id_transitions,
    );
    marks = λ id t f.
        ground (arith, h.marks id t, Dict.lookup-insert (word_at ws 3) id [] r.id_transitions);
  }
]

change_value-IsMarked :
    (r : Reader) (id value : Str) → IsMarked r → IsMarked (change_value r id value)
unfolding change_value
change_value-IsMarked r id value h = elim (Option-cases (Dict.lookup id r.id_transitions)) [
  | inl e ↦ rw (e, change_value) h
  | inr (trans, e) ↦
      rw (e, change_value)
        (let known : Dict.lookup id r.last_change_time ≡ last_time trans = cc (h.last id) in
          rw known (record {
            last = λ j.
                rw (Dict.lookup-insert, Dict.lookup-insert)
                  (ground (arith, h.last j, last_time-changed trans r.current_time value));
            marks = λ j t f. ground (
              arith,
              h.marks j t,
              Dict.lookup-insert id j (changed trans r.current_time value) r.id_transitions,
              changed-AreMarked trans r.current_time value (h.marks id trans e),
            );
          }))
]

start-IsMarked : IsMarked start
unfolding Dict.lookup
start-IsMarked = record { last = λ i. refl; marks = λ i t g. cc }

-- In a file that is read, a transition of a signal is marked as a glitch exactly where the
-- transition before it or the one behind it, of the same identifier, has the same time.
pub load_vcd-AreMarked :
    (lines : List Str) (adapter : FormatAdapter) (id : Str) (trans : List Transition)
    → load_vcd lines ≡ some adapter
    → Dict.lookup id adapter.id_transitions ≡ some trans
    → AreMarked none trans
unfolding load_vcd
load_vcd-AreMarked lines adapter id trans e f = elim (Option-cases (read_lines start lines)) [
  | inl failed ↦ ground arith
  | inr (r, done) ↦
      let h =
        read_lines_keeps IsMarked (λ _ _. Unit) same-IsMarked timed-IsMarked declare_var-IsMarked
          change_value-IsMarked start lines (Advances-always start lines) start-IsMarked done in
      h.marks id trans (ground arith)
]
