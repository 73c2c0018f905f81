-- ===== src/Wave/Vcd.antt =====
-- waveform_explorer/src/vcd/VcdAdapter.cpp: reading a VCD file, line by line.
pub mod Induction
pub mod Glitches
pub mod Identifiers
pub mod Times
use auto_waveform_debugger.Base.{
  ℕ, ◌+◌, ◌%◌, ◌^◌, ◌≡◌, Bool, true, false, ◌||◌, ◌&&◌, Option, none, some, List, [], ◌∷◌, ◌++◌,
  Str, codes, str_eq, if◌then◌else◌, ◌==◌, reverse, is_empty, drop,
}
use auto_waveform_debugger.Base.Text.{before_char, has_char}
use auto_waveform_debugger.Base.Dict
use auto_waveform_debugger.Base.Dict.{Dict}
use auto_waveform_debugger.Base.Scan.{words, word_at, stoull}
use auto_waveform_debugger.Wave.Signal.{Transition, SignalInfo, FormatAdapter}
use auto_waveform_debugger.Wave.Database.{strip_top_prefix}

-- The adapter's fields, with the variables of the loop of `Load`. `collecting` holds inside the
-- loop that reads the rest of a $timescale over several lines.
pub record Reader : Type 0 where
  pub timescale : Str
  pub signal_info : Dict SignalInfo
  pub id_transitions : Dict (List Transition)
  pub current_scope : List Str
  pub current_time : ℕ
  pub last_change_time : Dict ℕ
  pub collecting : Bool

-- `Close`, and the loop's variables as they are initialised.
abbrev pub start : Reader
start = record {
  timescale = [];
  signal_info = [];
  id_transitions = [];
  current_scope = [];
  current_time = 0;
  last_change_time = [];
  collecting = false;
}

-- The loop over ' ', '\t' and '\r' from the start of the line, as a C string.
abbrev skip_blanks : Str → Str
skip_blanks [] = []
skip_blanks (c ∷ s) =
    let rest = skip_blanks s in if c == 32 || (c == 9 || c == 13) then rest else c ∷ s

abbrev pub line_start : Str → Str
line_start line = skip_blanks (before_char 0 line)

abbrev is_trailing : ℕ → Bool
is_trailing c = c == 32 || (c == 9 || (c == 13 || c == 10))

-- A text of trailing characters alone is kept (find_last_not_of gives npos).
abbrev drop_trailing : Str → Str
drop_trailing [] = []
drop_trailing (c ∷ s) = let rest = drop_trailing s in if is_trailing c then rest else c ∷ s

unfoldable pub trim_id : Str → Str
trim_id id = let kept = drop_trailing (reverse id) in if is_empty kept then id else reverse kept

-- collect_timescale: the parts up to $end.
unfoldable pub collect_timescale : Reader → List Str → Reader
collect_timescale r [] = r
collect_timescale r (part ∷ parts) =
    let more = collect_timescale (record r { timescale = r.timescale ++ part }) parts in
    if str_eq part (codes "$end") then record r { collecting = false } else more

unfoldable pub scope_path : List Str → Str → Str
scope_path [] name = name
scope_path (scope ∷ scopes) name = scope ++ (b'.' ∷ scope_path scopes name)

-- current_scope.pop_back()
unfoldable pub pop_scope : List Str → List Str
pop_scope [] = []
pop_scope (scope ∷ []) = []
pop_scope (scope ∷ next ∷ scopes) = scope ∷ pop_scope (next ∷ scopes)

abbrev width_of : Option ℕ → ℕ
width_of none = 1
width_of (some n) = n % 2 ^ 32

unfoldable pub declare_var : Reader → List Str → Reader
unfolding strip_top_prefix scope_path
declare_var r ws =
    let id = word_at ws 3 in
    let name = word_at ws 4 in
    let path = strip_top_prefix (scope_path r.current_scope name) in
    let info : SignalInfo = record {
      name = name;
      path = path;
      width = width_of (stoull (word_at ws 2));
      type = word_at ws 1;
      signal_id = id;
    } in
    record r {
      signal_info = Dict.insert path info r.signal_info;
      id_transitions =
          if Dict.contains id r.id_transitions
          then r.id_transitions
          else Dict.insert id [] r.id_transitions;
    }

-- A line that begins with '$', as its words.
unfoldable pub read_keyword : Reader → List Str → Reader
unfolding collect_timescale pop_scope declare_var
read_keyword r [] = r
read_keyword r (token ∷ rest) =
    if str_eq token (codes "$timescale")
    then collect_timescale (record r { timescale = []; collecting = true }) rest
    else if str_eq token (codes "$scope")
    then record r { current_scope = r.current_scope ++ word_at (token ∷ rest) 2 ∷ [] }
    else if str_eq token (codes "$upscope")
    then record r { current_scope = pop_scope r.current_scope }
    else if str_eq token (codes "$var")
    then declare_var r (token ∷ rest)
    else r

-- back().is_glitch = true, where back().timestamp == time
unfoldable pub mark_last : ℕ → List Transition → List Transition
mark_last time [] = []
mark_last time (x ∷ []) = (if x.timestamp == time then record x { is_glitch = true } else x) ∷ []
mark_last time (x ∷ y ∷ ys) = x ∷ mark_last time (y ∷ ys)

abbrev pub changed_now : Option ℕ → ℕ → Bool
changed_now none time = false
changed_now (some last) time = last == time

unfoldable pub change_value : Reader → Str → Str → Reader
unfolding mark_last
change_value r id value = elim (Dict.lookup id r.id_transitions) [
  | none ↦ r
  | some trans ↦
      let is_glitch = changed_now (Dict.lookup id r.last_change_time) r.current_time in
      let earlier = if is_glitch then mark_last r.current_time trans else trans in
      let next : Transition = record {
        timestamp = r.current_time;
        value = value;
        is_glitch = is_glitch;
      } in
      record r {
        id_transitions = Dict.insert id (earlier ++ next ∷ []) r.id_transitions;
        last_change_time = Dict.insert id r.current_time r.last_change_time;
      }
]

abbrev pub is_scalar_char : ℕ → Bool
is_scalar_char c =
    c == b'0' || (c == b'1' || (c == b'x' || (c == b'X' || (c == b'z' || c == b'Z'))))

abbrev pub is_vector_char : ℕ → Bool
is_vector_char c = c == b'b' || (c == b'B' || (c == b'r' || c == b'R'))

-- The text behind the first space.
abbrev after_space : Str → Str
after_space [] = []
after_space (c ∷ s) = let rest = after_space s in if c == 32 then s else rest

unfoldable pub read_change : Reader → ℕ → Str → Reader
unfolding trim_id change_value
read_change r c rest =
    if is_scalar_char c
    then change_value r (trim_id rest) (c ∷ [])
    else if is_vector_char c
    then (if has_char 32 rest
        then change_value r (trim_id (after_space rest)) (before_char 32 (c ∷ rest))
        else change_value r [] [])
    else r

-- A line, from its first character on; `none` where `Load` returns false.
unfoldable pub read_line : Reader → Str → Str → Option Reader
unfolding read_keyword read_change
read_line r line [] = some r
read_line r line (c ∷ rest) =
    if c == b'$'
    then some (read_keyword r (words line))
    else if c == b'#'
    then elim (stoull rest) [ none ↦ none | some time ↦ some (record r { current_time = time }) ]
    else some (read_change r c rest)

unfoldable pub step : Reader → Str → Option Reader
unfolding read_line collect_timescale
step r line =
    if r.collecting
    then some (collect_timescale r (words line))
    else read_line r line (line_start line)

unfoldable pub read_lines : Reader → List Str → Option Reader
unfolding step
read_lines r [] = some r
read_lines r (line ∷ lines) = elim (step r line) [ none ↦ none | some r' ↦ read_lines r' lines ]

-- CollectSignals copies both maps; LoadSignalTransitions changes nothing and returns true.
abbrev pub adapter_of : Reader → FormatAdapter
adapter_of r = record {
  timescale = r.timescale;
  signal_info = r.signal_info;
  id_transitions = r.id_transitions;
  load_signal_transitions = λ info m. (true, m);
}

-- `Load` on the lines of a file.
unfoldable pub load_vcd : List Str → Option FormatAdapter
unfolding read_lines
load_vcd lines = elim (read_lines start lines) [ none ↦ none | some r ↦ some (adapter_of r) ]
