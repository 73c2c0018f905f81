-- ===== src/Trace/Publish.antt =====
-- The publication of a database and the test whether a compilation can be left out:
-- db/GraphPublication.h. A file is its contents; the four files are those that AtomicGraphOutput
-- names. Permissions, the guardian process and the resolution of symbolic links are left out.
pub mod Hits
pub mod Reachable
use auto_waveform_debugger.Base.{
  ℕ, ◌+◌, ◌-◌, ◌*◌, ◌/◌, ◌%◌, Bool, true, false, not, ◌&&◌, ◌||◌, Option, none, some, List, [], ◌∷◌,
  ◌++◌, Str, codes, str_eq, if◌then◌else◌, ltb, leb, ◌==◌, length, take, drop,
}
use auto_waveform_debugger.Trace.Number.{to_string}

-- sizeof(GraphDbFileHeader): the magic, two words of 32 bits and fifteen of 64.
abbrev pub header_size : ℕ
header_size = 144

abbrev pub graph_db_magic : Str
graph_db_magic = codes "RTL_TRACE_GDB_1" ++ 0 ∷ []

-- A word of 32 bits, its low byte first.
abbrev pub word32 : Str → ℕ
word32 (a ∷ b ∷ c ∷ d ∷ s) = a + (256 * b + (65536 * c + 16777216 * d))
word32 s = 0

abbrev pub has_supported_version : ℕ → ℕ → Bool
has_supported_version version reserved =
    leb 1 version
    && (leb version 6
        && (not (version == 6)
            || (reserved == 1 || (reserved == 3 || (reserved == 15 || reserved == 31)))))

-- ReadCacheHeader: the bytes of the header and the size of the file.
unfoldable pub read_cache_header : Str → Option (Str × ℕ)
read_cache_header file =
    if ltb (length file) header_size
    then none
    else if str_eq (take 16 file) graph_db_magic
        && has_supported_version (word32 (drop 16 file)) (word32 (drop 20 file))
    then some (take header_size file, length file)
    else none

abbrev hex_digit : ℕ → ℕ
hex_digit n = if ltb n 10 then b'0' + n else b'a' + (n - 10)

unfoldable encode_hex : Str → Str
encode_hex [] = []
encode_hex (byte ∷ bytes) = hex_digit (byte / 16) ∷ hex_digit (byte % 16) ∷ encode_hex bytes

unfoldable pub cache_envelope : Str → ℕ → Str
unfolding encode_hex to_string
cache_envelope header size =
    codes "RTL_TRACE_CACHE_ENVELOPE:1\nDB_SIZE:"
    ++ (to_string size ++ (codes "\nDB_HEADER:" ++ (encode_hex header ++ codes "\n")))

pub record Disk : Type 0 where
  pub db : Option Str
  pub meta : Option Str
  pub db_temp : Option Str
  pub meta_temp : Option Str

-- The metadata for a file, if its header can be read.
unfoldable pub metadata : Str → Option Str → Option Str
unfolding read_cache_header cache_envelope
metadata fingerprint none = none
metadata fingerprint (some file) = elim (read_cache_header file) [
  | none ↦ none
  | some (header, size) ↦ some (fingerprint ++ cache_envelope header size)
]

-- The steps of Publish that change files. Each gives none where it fails.
unfoldable pub write_meta : Str → Disk → Option Disk
unfolding metadata
write_meta fingerprint d = elim (metadata fingerprint d.db_temp) [
  | none ↦ none
  | some m ↦ some (record d { meta_temp = some m })
]

unfoldable pub unlink_meta : Disk → Disk
unlink_meta d = record d { meta = none }

unfoldable pub rename_db : Disk → Option Disk
rename_db d = elim d.db_temp [
  | none ↦ none
  | some file ↦ some (record d { db = some file; db_temp = none })
]

unfoldable pub rename_meta : Disk → Option Disk
rename_meta d = elim d.meta_temp [
  | none ↦ none
  | some m ↦ some (record d { meta = some m; meta_temp = none })
]

-- How far a compilation has come: GraphPublishTestStop names these places.
pub data Stage : Type 0 where
  prepared db_closed meta_closed meta_invalidated db_published : Stage

-- What Publish does next.
unfoldable pub publish_step : Stage → Str → Disk → Option Disk
unfolding write_meta unlink_meta rename_db rename_meta
publish_step prepared fingerprint d = some d
publish_step db_closed fingerprint d = write_meta fingerprint d
publish_step meta_closed fingerprint d = some (unlink_meta d)
publish_step meta_invalidated fingerprint d = rename_db d
publish_step db_published fingerprint d = rename_meta d

pub data Process : Type 0 where
  idle : Process
  compiling : Str → Stage → Process

abbrev pub after : Str → Stage → Process
after fingerprint prepared = compiling fingerprint db_closed
after fingerprint db_closed = compiling fingerprint meta_closed
after fingerprint meta_closed = compiling fingerprint meta_invalidated
after fingerprint meta_invalidated = compiling fingerprint db_published
after fingerprint db_published = idle

abbrev pub then_step : Stage → Str → Option Disk → Option Disk
then_step stage fingerprint none = none
then_step stage fingerprint (some d) = publish_step stage fingerprint d

-- Publish where no step fails for another reason than what it reads.
unfoldable pub publish : Str → Disk → Option Disk
unfolding publish_step
publish fingerprint d = then_step db_published fingerprint (
    then_step meta_invalidated fingerprint (
      then_step meta_closed fingerprint
        (then_step db_closed fingerprint (publish_step prepared fingerprint d))))

abbrev pub same_meta : Option Str → Option Str → Bool
same_meta none actual = false
same_meta (some expected) none = false
same_meta (some expected) (some actual) = str_eq actual expected

-- GraphCompileCacheHit, with the lock of the destination.
unfoldable pub graph_compile_cache_hit : Str → Disk → Bool
unfolding metadata
graph_compile_cache_hit fingerprint d = same_meta (metadata fingerprint d.db) d.meta
