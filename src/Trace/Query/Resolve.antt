-- ===== src/Trace/Query/Resolve.antt =====
-- ResolveSignalQuery of query/TraceQuery.cc, and LookupSignalId of db/GraphDb.cc with the index that
-- BuildSessionSignalIndex fills.
pub mod Longest
pub mod RoundTrip
use mathlib.Core.Option
use auto_waveform_debugger.Base.{
  ℕ, suc, ◌+◌, Option, none, some, List, [], ◌∷◌, ◌++◌, Str, codes, str_eq, is_some, if◌then◌else◌,
  ◌==◌,
}
use auto_waveform_debugger.Trace.Select.{Axis, parse_signal_query}
use auto_waveform_debugger.Trace.Query.{TraceOptions}
use auto_waveform_debugger.Trace.Query.Args.{only_axis}

abbrev pub next_id : Option ℕ → Option ℕ
next_id none = none
next_id (some i) = some (suc i)

-- The index keeps the first of equal names.
unfoldable pub lookup_signal_id : List Str → Str → Option ℕ
lookup_signal_id [] name = none
lookup_signal_id (s ∷ names) name =
    let later = next_id (lookup_signal_id names name) in if str_eq s name then some 0 else later

abbrev pub Resolved : Type 0
Resolved = Str × List Axis

abbrev pub if_signal : Str → Option (Str × List Axis) → Option Resolved
if_signal root none = none
if_signal root (some (base, axes)) =
    if str_eq base (codes "signal") then some (root, axes) else none

-- A stored name with a suffix that starts with a bracket: the suffix must be selectors only.
unfoldable pub split_at_bracket : List Str → Str → Str → Option Resolved
unfolding lookup_signal_id
split_at_bracket names root suffix =
    if is_some (lookup_signal_id names root)
    then if_signal root (parse_signal_query (codes "signal" ++ suffix))
    else none

abbrev pub or_else : Option Resolved → Option Resolved → Option Resolved
or_else none other = other
or_else (some r) other = some r

-- The loop over the brackets of `root ++ suffix`, from the last one back to those in `suffix`.
unfoldable pub last_split : List Str → Str → Str → Option Resolved
unfolding split_at_bracket
last_split names root [] = none
last_split names root (c ∷ s) =
    or_else (last_split names (root ++ c ∷ []) s)
      (if c == b'[' then split_at_bracket names root (c ∷ s) else none)

-- The name and the selects that resolve_options sets below; none where the syntax of the signal is
-- wrong.
unfoldable pub resolve_signal_query : List Str → Str → Option Resolved
resolve_signal_query names signal =
    if is_some (lookup_signal_id names signal)
    then some (signal, [])
    else or_else (last_split names [] signal) (parse_signal_query signal)

abbrev pub set_query : TraceOptions → Option Axis → Resolved → TraceOptions
set_query parsed select (root, axes) = record parsed {
  root_signal = root;
  signal_select = select;
  signal_select_axes = axes;
}

-- The select is that of the parse where the names decide nothing.
abbrev pub or_parsed : TraceOptions → Option Resolved → Option TraceOptions
or_parsed parsed none =
    Option.map (set_query parsed parsed.signal_select) (parse_signal_query parsed.signal)
or_parsed parsed (some (root, axes)) = some (set_query parsed (only_axis axes) (root, axes))

-- ResolveSignalQuery on the options that ParseTraceArgs has filled.
unfoldable pub resolve_options : List Str → TraceOptions → Option TraceOptions
resolve_options names parsed =
    if is_some (lookup_signal_id names parsed.signal)
    then some (set_query parsed none (parsed.signal, []))
    else or_parsed parsed (last_split names [] parsed.signal)
