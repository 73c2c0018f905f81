-- ===== src/Api/Edges/First.antt =====
-- The edge that find_edge of AgentAPI.cpp returns: the nearest one in the direction asked.
use auto_waveform_debugger.Base.{
  ℕ, ◌-◌, ◌≤◌, ◌<◌, ◌≡◌, ◌⊎◌, refl, ◌∙◌, Bool, true, false, ◌&&◌, Option, none, some, List, [], ◌∷◌,
  Str, arith, codes, if◌then◌else◌, ltb, is_empty, Bool-cases, inl, inr, All,
}
use auto_waveform_debugger.Wave.Signal.{Transition, SignalInfo}
use auto_waveform_debugger.Wave.Timeline.{from_lower, value_at, SortedFrom, IsSorted}
use auto_waveform_debugger.Wave.Database.{WaveDatabase, get_transitions, get_value_at_time}
use auto_waveform_debugger.Wave.Database.Loading.{IsLoaded}
use auto_waveform_debugger.Api.Reply.{Reply, success, with_signal_known, >>=-eq_some}
use auto_waveform_debugger.Api.Edges.{edge_matches, forward_edges, find_edge}

abbrev pub Any : (Transition → Type 0) → List Transition → Type 0
Any P [] = ⊥
Any P (x ∷ xs) = P x ⊎ Any P xs

-- The first time after `start` at which a transition passes the test; `none` if there is no such.
abbrev pub IsFirst : (Transition → Bool) → ℕ → List Transition → Option ℕ → Type 0
IsFirst test start trans none = All (λ x. start < x.timestamp → test x ≡ false) trans
IsFirst test start trans (some t) =
    (start < t)
    × Any (λ x. (x.timestamp ≡ t) × (test x ≡ true)) trans
    × All (λ x. start < x.timestamp → x.timestamp < t → test x ≡ false) trans

module _ (test : Transition → Bool) (start : ℕ) where
  first_after : List Transition → Option ℕ
  first_after [] = none
  first_after (x ∷ xs) =
      if ltb start x.timestamp && test x then some x.timestamp else first_after xs

  All-later :
      (t n : ℕ) (xs : List Transition)
      → t ≤ n
      → SortedFrom n xs
      → All (λ x. start < x.timestamp → x.timestamp < t → test x ≡ false) xs
  All-later t n [] h s = tt
  All-later t n (x ∷ xs) h s =
      ((λ a b. absurd (omega arith)), All-later t x.timestamp xs (omega arith) s.1)

  -- A transition that does not count goes in front.
  IsFirst-skip :
      (x : Transition) (xs : List Transition) (r : Option ℕ)
      → (start < x.timestamp → test x ≡ false)
      → IsFirst test start xs r
      → IsFirst test start (x ∷ xs) r
  IsFirst-skip x xs none h f = (h, f)
  IsFirst-skip x xs (some t) h f = (f.0, inr f.1, ((λ a b. h a), f.2))

  first_after-IsFirst :
      (n : ℕ) (xs : List Transition) → SortedFrom n xs → IsFirst test start xs (first_after xs)
  unfolding first_after
  first_after-IsFirst n [] s = tt
  first_after-IsFirst n (x ∷ xs) s = elim (Bool-cases (ltb start x.timestamp && test x)) [
    | inl hit ↦ rw hit (
      ground arith,
      inl (refl, ground arith),
      ((λ a b. absurd (omega arith)), All-later x.timestamp x.timestamp xs (omega arith) s.1),
    )
    | inr miss ↦ rw miss (
        IsFirst-skip x xs (first_after xs) (λ a. ground arith)
          (first_after-IsFirst x.timestamp xs s.1))
  ]

  IsFirst-from_lower :
      (xs : List Transition) (r : Option ℕ)
      → IsFirst test start (from_lower start xs) r
      → IsFirst test start xs r
  unfolding from_lower
  IsFirst-from_lower [] r h = h
  IsFirst-from_lower (x ∷ xs) r h = elim (Bool-cases (ltb x.timestamp start)) [
    | inl early ↦
        IsFirst-skip x xs r (λ a. absurd (ground arith)) (IsFirst-from_lower xs r (rw early at h))
    | inr late ↦ rw late at h
  ]

from_lower-SortedFrom :
    (n t : ℕ) (xs : List Transition) → SortedFrom n xs → SortedFrom n (from_lower t xs)
unfolding from_lower
from_lower-SortedFrom n t [] s = tt
from_lower-SortedFrom n t (x ∷ xs) s = elim (Bool-cases (ltb x.timestamp t)) [
  | inl e ↦ rw e (weaken (from_lower t xs) (from_lower-SortedFrom x.timestamp t xs s.1))
  | inr e ↦ rw e s
]
  where
    weaken : (ys : List Transition) → SortedFrom x.timestamp ys → SortedFrom n ys
    weaken [] h = tt
    weaken (y ∷ ys) h = (omega arith, h.1)

-- An edge of the signal at a transition, against the value just before its time.
abbrev pub is_edge : Str → List Transition → Transition → Bool
is_edge edge_type trans x = edge_matches edge_type (value_at trans (x.timestamp - 1)) x.value

module _ (path edge_type : Str) (start_time : ℕ) (db : WaveDatabase) (info : SignalInfo)
    (trans : List Transition) (loaded : IsLoaded db path info trans) where
  forward_edges-eq :
      (it : List Transition)
      → forward_edges path edge_type start_time it db
        ≡ some (success (first_after (is_edge edge_type trans) start_time it), db)
  unfolding forward_edges first_after
  forward_edges-eq [] = refl
  forward_edges-eq (x ∷ it) = elim (Bool-cases (ltb start_time x.timestamp)) [
    | inr early ↦ rw early (forward_edges-eq it)
    | inl late ↦ rw late (
        >>=-eq_some (get_value_at_time path (x.timestamp - 1)) _ db _
          (loaded.sampled (x.timestamp - 1))
        ∙ (elim (Bool-cases (is_edge edge_type trans x)) [
          | inl hit ↦ rw hit refl
          | inr miss ↦ rw miss (forward_edges-eq it)
        ]))
  ]

  -- For a signal whose transitions are loaded and in time order, a forward search succeeds and
  -- changes nothing. It returns the first time after the start at which a transition is an edge of
  -- the kind asked for, against the value just before its time; it returns none only if there is no
  -- such transition.
  pub find_edge_forward :
      IsSorted trans
      → (r : Option ℕ) × (find_edge path edge_type start_time (codes "forward") db
          ≡ some (success r, db))
        × IsFirst (is_edge edge_type trans) start_time trans r
  unfolding find_edge
  find_edge_forward sorted = (
    first_after (is_edge edge_type trans) start_time (from_lower start_time trans),
    with_signal_known path _ db loaded.known
        ∙ >>=-eq_some (get_transitions path) _ db trans loaded.read
        ∙ (elim (Bool-cases (is_empty trans)) [
          | inl none_there ↦ rw none_there (empty trans none_there)
          | inr there ↦ rw there (forward_edges-eq (from_lower start_time trans))
        ]),
    IsFirst-from_lower (is_edge edge_type trans) start_time trans _ (
        first_after-IsFirst (is_edge edge_type trans) start_time 0 (from_lower start_time trans)
          (from_lower-SortedFrom 0 start_time trans sorted)),
  )
    where
      empty :
          (xs : List Transition)
          → is_empty xs ≡ true
          → ◌≡◌ {A = Option (Reply (Option ℕ) × WaveDatabase)} (some (success none, db)) (
              some (
                success
                    (first_after (is_edge edge_type trans) start_time (from_lower start_time xs)),
                db,
              ))
      empty [] e = unfold from_lower first_after in refl
      empty (x ∷ xs) e = cc
