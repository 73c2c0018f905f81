-- ===== src/Wave/Vcd/Times.antt =====
-- Where the time stamps of a VCD file do not fall, VcdAdapter.cpp gives transitions in time order.
use auto_waveform_debugger.Base.{
  ℕ, ◌≤◌, ◌≡◌, refl, Bool, true, false, some, List, [], ◌∷◌, ◌++◌, Str, arith, if◌then◌else◌,
  Option-cases, Bool-cases, inl, inr, str_eq,
}
use auto_waveform_debugger.Base.Dict
use auto_waveform_debugger.Base.Scan.{word_at}
use auto_waveform_debugger.Wave.Signal.{Transition, FormatAdapter}
use auto_waveform_debugger.Wave.Timeline.{SortedFrom, IsSorted}
use auto_waveform_debugger.Wave.Vcd.{
  Reader, start, mark_last, changed_now, change_value, declare_var, read_lines, load_vcd,
}
use auto_waveform_debugger.Wave.Vcd.Induction.{IsSame, Advances, read_lines_keeps}

-- In time order from `n` on, and up to `t`.
abbrev Between : ℕ → ℕ → List Transition → Type 0
Between n t [] = n ≤ t
Between n t (x ∷ xs) = (n ≤ x.timestamp) × Between x.timestamp t xs

Between-mono : (n t u : ℕ) (xs : List Transition) → t ≤ u → Between n t xs → Between n u xs
Between-mono n t u [] h b = omega arith
Between-mono n t u (x ∷ xs) h b = (b.0, Between-mono x.timestamp t u xs h b.1)

Between-append :
    (n t : ℕ) (xs : List Transition) (x : Transition)
    → x.timestamp ≡ t
    → Between n t xs
    → Between n t (xs ++ x ∷ [])
Between-append n t [] x e b = (omega arith, omega arith)
Between-append n t (y ∷ ys) x e b = (b.0, Between-append y.timestamp t ys x e b.1)

Between-mark_last :
    (n t u : ℕ) (xs : List Transition) → Between n t xs → Between n t (mark_last u xs)
unfolding mark_last
Between-mark_last n t u [] b = b
Between-mark_last n t u (x ∷ []) b = ground arith
Between-mark_last n t u (x ∷ y ∷ ys) b = (b.0, Between-mark_last x.timestamp t u (y ∷ ys) b.1)

Between→SortedFrom : (n t : ℕ) (xs : List Transition) → Between n t xs → SortedFrom n xs
Between→SortedFrom n t [] b = tt
Between→SortedFrom n t (x ∷ xs) b = (b.0, Between→SortedFrom x.timestamp t xs b.1)

-- All lists are in time order, up to the current time.
record IsOrdered (r : Reader) : Type 0 where
  ordered :
      (id : Str) (trans : List Transition)
      → Dict.lookup id r.id_transitions ≡ some trans
      → Between 0 r.current_time trans

same-IsOrdered : (r r' : Reader) → IsSame r r' → IsOrdered r → IsOrdered r'
same-IsOrdered r r' s h = record {
  ordered = λ id trans e. rw (s.time) (h.ordered id trans (rw (s.lists) at e));
}

timed-IsOrdered :
    (r : Reader) (time : ℕ)
    → r.current_time ≤ time
    → IsOrdered r
    → IsOrdered (record r { current_time = time })
timed-IsOrdered r time later h = record {
  ordered = λ id trans e. Between-mono 0 r.current_time time trans later (h.ordered id trans e);
}

declare_var-IsOrdered : (r : Reader) (ws : List Str) → IsOrdered r → IsOrdered (declare_var r ws)
unfolding declare_var
declare_var-IsOrdered r ws h = record {
  ordered = λ id trans e.
      ground (arith, h.ordered id trans, Dict.lookup-insert (word_at ws 3) id [] r.id_transitions);
}

change-Between :
    (t : ℕ) (again : Bool) (trans : List Transition) (x : Transition)
    → x.timestamp ≡ t
    → Between 0 t trans
    → Between 0 t ((if again then mark_last t trans else trans) ++ x ∷ [])
change-Between t true trans x e b = Between-append 0 t _ x e (Between-mark_last 0 t t trans b)
change-Between t false trans x e b = Between-append 0 t trans x e b

change_value-IsOrdered :
    (r : Reader) (id value : Str) → IsOrdered r → IsOrdered (change_value r id value)
unfolding change_value
change_value-IsOrdered r id value h = elim (Option-cases (Dict.lookup id r.id_transitions)) [
  | inl e ↦ rw (e, change_value) h
  | inr (trans, e) ↦
      rw (e, change_value)
        (record {
          ordered = λ j t f.
              put j t (changed_now (Dict.lookup id r.last_change_time) r.current_time) trans e
                (rw Dict.lookup-insert at f);
        })
]
  where
    put :
        (j : Str) (t : List Transition) (again : Bool) (trans : List Transition)
        → Dict.lookup id r.id_transitions ≡ some trans
        → (if str_eq id j
            then some (
                (if again then mark_last r.current_time trans else trans)
                ++ record { timestamp = r.current_time; value = value; is_glitch = again } ∷ [])
            else Dict.lookup j r.id_transitions)
          ≡ some t
        → Between 0 r.current_time t
    put j t again trans e f = elim (Bool-cases (str_eq id j)) [
      | inl hit ↦
          let x : Transition = record {
            timestamp = r.current_time;
            value = value;
            is_glitch = again;
          } in
          let g = change-Between r.current_time again trans x refl (h.ordered id trans e) in
          ground (arith, g)
      | inr miss ↦ h.ordered j t (rw miss at f)
    ]

start-IsOrdered : IsOrdered start
unfolding Dict.lookup
start-IsOrdered = record { ordered = λ i t g. cc }

-- If no line of the file takes the time back, the transitions of each identifier are in time order.
pub load_vcd-IsSorted :
    (lines : List Str) (adapter : FormatAdapter) (id : Str) (trans : List Transition)
    → Advances ◌≤◌ start lines
    → load_vcd lines ≡ some adapter
    → Dict.lookup id adapter.id_transitions ≡ some trans
    → IsSorted trans
unfolding load_vcd
load_vcd-IsSorted lines adapter id trans rises e f = elim (Option-cases (read_lines start lines)) [
  | inl failed ↦ absurd (ground arith)
  | inr (r, done) ↦
      let h =
        read_lines_keeps IsOrdered ◌≤◌ same-IsOrdered timed-IsOrdered declare_var-IsOrdered
          change_value-IsOrdered start lines rises start-IsOrdered done in
      Between→SortedFrom 0 r.current_time trans (h.ordered id trans (ground arith))
]
