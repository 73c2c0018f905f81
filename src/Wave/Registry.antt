-- ===== src/Wave/Registry.antt =====
-- waveform_explorer/src/FormatRegistry.cpp: which adapter a file name selects. The readers of the
-- vendor libraries (FST, FSDB) and the file system are fields of `Formats`.
use auto_waveform_debugger.Base.{
  ◌-◌, Bool, true, false, ◌&&◌, Option, none, some, [], ◌∷◌, Str, codes, ltb, ◌==◌, if◌then◌else◌,
  length, drop,
}
use auto_waveform_debugger.Base.Text.{to_lower}
use auto_waveform_debugger.Wave.Signal.{FormatAdapter}

-- The loop over the suffix's characters, from s[start] on.
unfoldable pub equal_case_insensitive : Str → Str → Bool
equal_case_insensitive s [] = true
equal_case_insensitive [] (b ∷ suffix) = false
equal_case_insensitive (a ∷ s) (b ∷ suffix) =
    to_lower a == to_lower b && equal_case_insensitive s suffix

unfoldable pub ends_with_case_insensitive : Str → Str → Bool
unfolding equal_case_insensitive
ends_with_case_insensitive s suffix =
    if ltb (length s) (length suffix)
    then false
    else equal_case_insensitive (drop (length s - length suffix) s) suffix

pub data AdapterKind : Type 0 where
  fst_adapter fsdb_adapter vcd_adapter : AdapterKind

-- `has_fsdb` is the build option WAVE_HAS_FSDB; `load` is the adapter's `Load`.
pub record Formats : Type 0 where
  pub has_fsdb : Bool
  pub load : AdapterKind → Str → Option FormatAdapter

unfoldable pub create : Bool → Str → Option AdapterKind
unfolding ends_with_case_insensitive
create has_fsdb filepath =
    if ends_with_case_insensitive filepath (codes ".fst")
    then some fst_adapter
    else if ends_with_case_insensitive filepath (codes ".fsdb")
    then if has_fsdb then some fsdb_adapter else none
    else some vcd_adapter
