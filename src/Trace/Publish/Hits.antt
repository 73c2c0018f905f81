-- ===== src/Trace/Publish/Hits.antt =====
-- A publication that ends well is found by the next compilation.
use auto_waveform_debugger.Base.{ℕ, ◌++◌, ◌≡◌, refl, ap, ◌∙◌, true, none, some, Str, str_eq_refl}
use auto_waveform_debugger.Trace.Publish.{
  read_cache_header, cache_envelope, Disk, metadata, write_meta, unlink_meta, rename_db,
  rename_meta, publish_step, publish, graph_compile_cache_hit,
}

published :
    (fp file m : Str) (d : Disk)
    → d.db_temp ≡ some file
    → metadata fp (some file) ≡ some m
    → publish fp d
      ≡ some (record { db = some file; meta = some m; db_temp = none; meta_temp = none })
unfolding publish publish_step
published fp file m d t read =
    let written : write_meta fp d ≡ some (record d { meta_temp = some m }) =
      unfold write_meta in rw (write_meta, ap (metadata fp) t ∙ read) refl in
    rw written (unfold unlink_meta rename_db rename_meta in rw (rename_db, t) refl)

metadata_read :
    (fp file header : Str) (size : ℕ)
    → read_cache_header file ≡ some (header, size)
    → metadata fp (some file) ≡ some (fp ++ cache_envelope header size)
unfolding metadata
metadata_read fp file header size h = rw (metadata, h) refl

hit_of :
    (fp : Str) (d : Disk) (m : Str)
    → metadata fp d.db ≡ some m
    → d.meta ≡ some m
    → graph_compile_cache_hit fp d ≡ true
unfolding graph_compile_cache_hit
hit_of fp d m h k = rw (graph_compile_cache_hit, h, k) (str_eq_refl m)

-- If the compiler has left a file whose header can be read, then the publication succeeds where no
-- file operation fails: the file is the database, no staging file is left, and the next test for
-- the same fingerprint is a hit.
pub publish-hits :
    (fingerprint file header : Str) (size : ℕ) (d : Disk)
    → d.db_temp ≡ some file
    → read_cache_header file ≡ some (header, size)
    → (d' : Disk) × (publish fingerprint d ≡ some d')
      × (d'.db ≡ some file)
      × (d'.db_temp ≡ none)
      × (d'.meta_temp ≡ none)
      × (graph_compile_cache_hit fingerprint d' ≡ true)
publish-hits fp file header size d t h =
    let m : Str = fp ++ cache_envelope header size in
    let read : metadata fp (some file) ≡ some m = metadata_read fp file header size h in
    let d' : Disk = record { db = some file; meta = some m; db_temp = none; meta_temp = none } in
    (d', published fp file m d t read, refl, refl, refl, hit_of fp d' m read refl)
