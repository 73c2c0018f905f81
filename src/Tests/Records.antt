-- ===== src/Tests/Records.antt =====
-- Runs on files, endpoints and selects of the tracer.
use auto_waveform_debugger.Base.{
  ℕ, ◌%◌, ◌+◌, ◌==◌, ==_iff, ap, length, ◌≡◌, ◌↔◌, Option, refl, true, false, none, some, List, [],
  ◌∷◌, ◌++◌, Str, replicate, codes, arith,
}
use auto_waveform_debugger.Trace.Hier.{leaf_name}
use auto_waveform_debugger.Trace.Dedup.{Keys, deduplicate}
use auto_waveform_debugger.Trace.Dedup.Table.{RespectsHash}
use auto_waveform_debugger.Trace.Dedup.KeepsFirst.{keep_first, deduplicate_lem}
use auto_waveform_debugger.Trace.Overlap.{parse_endpoint_axes, endpoint_matches_signal_axes}
use auto_waveform_debugger.Trace.Overlap.Exact.{AllShare, endpoint_matches_signal_axes-AllShare}
use auto_waveform_debugger.Trace.Publish.{
  graph_db_magic, read_cache_header, cache_envelope, Disk, prepared, db_closed, meta_closed,
  meta_invalidated, db_published, idle, publish_step, publish, graph_compile_cache_hit,
}
use auto_waveform_debugger.Trace.Publish.Reachable.{
  World, Reach, here, next, start, advance, cache_hit_sound,
}
use auto_waveform_debugger.Trace.Publish.Hits.{publish-hits}
use auto_waveform_debugger.Trace.Number.Integer.{pos, negsuc}
use auto_waveform_debugger.Trace.Endpoint.{EndpointRecord, expr, Pools, endpoint_key}
use auto_waveform_debugger.Trace.Endpoint.Key.{SameIdentity, endpoint_key-SameIdentity}
use auto_waveform_debugger.Trace.Select.{Axis, format_bit_range, parse_signal_query}
use auto_waveform_debugger.Trace.Select.RoundTrip.{write_axes, parse_signal_query-write}

abbrev good_file : Str
good_file = graph_db_magic ++ 5 ∷ 0 ∷ 0 ∷ 0 ∷ replicate 124 0

good_header : read_cache_header good_file ≡ some (good_file, 144)
unfolding read_cache_header
good_header = refl

abbrev staged : Disk
staged = record {
  db = some (codes "old");
  meta = some (codes "old meta");
  db_temp = some good_file;
  meta_temp = some [];
}

publish-hits_example :
    (d : Disk) × (publish (codes "fp") staged ≡ some d)
    × (d.db ≡ some good_file)
    × (d.db_temp ≡ none)
    × (d.meta_temp ≡ none)
    × (graph_compile_cache_hit (codes "fp") d ≡ true)
publish-hits_example = publish-hits (codes "fp") good_file good_file 144 staged refl good_header

-- The compiler writes one file under one fingerprint.
abbrev OnlyGood : Str → Str → Type 0
OnlyGood fingerprint file = (fingerprint ≡ codes "fp") × (file ≡ good_file)

abbrev fresh_disk : World
fresh_disk = record {
  disk = record { db = none; meta = none; db_temp = none; meta_temp = none };
  process = idle;
}

abbrev published_disk : World
published_disk = record {
  disk = record {
    db = some good_file;
    meta = some (codes "fp" ++ cache_envelope good_file 144);
    db_temp = none;
    meta_temp = none;
  };
  process = idle;
}

reached : Reach OnlyGood fresh_disk published_disk
unfolding publish_step read_cache_header
reached =
    next
      (next
        (next
          (next
            (next (next here (start fresh_disk (codes "fp") good_file refl (refl, refl)))
              (advance _ (codes "fp") prepared _ refl refl))
            (advance _ (codes "fp") db_closed _ refl refl))
          (advance _ (codes "fp") meta_closed _ refl refl))
        (advance _ (codes "fp") meta_invalidated _ refl refl))
      (advance _ (codes "fp") db_published _ refl refl)

hit : graph_compile_cache_hit (codes "fp") published_disk.disk ≡ true
unfolding graph_compile_cache_hit
hit = refl

cache_hit_sound_example : (f : Str) × (published_disk.disk.db ≡ some f) × OnlyGood (codes "fp") f
cache_hit_sound_example =
    cache_hit_sound OnlyGood fresh_disk published_disk (codes "fp") (λ m h. cc h) refl reached hit

abbrev endpoint : EndpointRecord
endpoint = record {
  kind = expr;
  path = [];
  file = codes "a.sv";
  path_id = 1;
  file_id = 0;
  line = negsuc 0;
  direction = codes "out";
  assignment_text = codes "a = b[0]";
  has_assignment_range = true;
  assignment_start = 10;
  assignment_end = 18;
  bit_map = codes "[0]";
  bit_map_approximate = false;
  bit_map_logical_axes = false;
  bit_map_merged = false;
  legacy_fallback_native_merge = false;
  port_query_coverage = [];
  compact_port_routes = [];
  port_mapping_constant = false;
  port_mapping_unresolved = false;
  lhs_signal_ids = [];
  rhs_signal_ids = [];
  lhs_signals = codes "top.a" ∷ [];
  rhs_signals = codes "top.b" ∷ [];
}

abbrev pools : Pools
pools = record { path_pool = codes "top.a" ∷ codes "top.c" ∷ []; file_pool = [] }

same_key :
    endpoint_key pools endpoint ≡ endpoint_key pools (record endpoint { path = codes "top.c" })
unfolding endpoint_key
same_key = refl

endpoint_key-SameIdentity_example :
    SameIdentity pools endpoint (record endpoint { path = codes "top.c" })
endpoint_key-SameIdentity_example =
    endpoint_key-SameIdentity pools endpoint (record endpoint { path = codes "top.c" }) same_key

abbrev byte_axis : Axis
byte_axis = (pos 7, pos 0)

format_bit_range_run : format_bit_range (pos 3, negsuc 4) ≡ codes "[3:-5]"
unfolding format_bit_range
format_bit_range_run = refl

parse_signal_query-write_example :
    parse_signal_query (codes "top.u[1].data" ++ write_axes (byte_axis ∷ (pos 2, pos 2) ∷ []))
    ≡ some (codes "top.u[1].data", byte_axis ∷ (pos 2, pos 2) ∷ [])
unfolding leaf_name
parse_signal_query-write_example =
    parse_signal_query-write (codes "top.u[1].data") (byte_axis ∷ (pos 2, pos 2) ∷ []) (λ e. cc e)
      refl refl (omega arith)

-- Entries whose first parts are compared, and whose hashes collide.
abbrev first_part : Keys (ℕ × ℕ)
first_part = record { same = λ a b. a.0 == b.0; hash = λ a. a.0 % 2 }

deduplicate_run :
    deduplicate first_part 0 ((3, 0) ∷ (5, 1) ∷ (3, 2) ∷ (4, 3) ∷ (5, 4) ∷ [])
    ≡ some ((3, 0) ∷ (5, 1) ∷ (4, 3) ∷ [], 2)
unfolding deduplicate
deduplicate_run = refl

first_part-RespectsHash : RespectsHash first_part
first_part-RespectsHash a b h = ap (λ (n : ℕ). n % 2) ((==_iff a.0 b.0).0 h)

deduplicate_lem_example :
    let entries : List (ℕ × ℕ) = (3, 0) ∷ (5, 1) ∷ (3, 2) ∷ [] in
    (removed : ℕ) × (deduplicate first_part 0 entries
      ≡ some (keep_first first_part [] entries, removed))
    × (removed + length (keep_first first_part [] entries) ≡ 3)
deduplicate_lem_example =
    deduplicate_lem first_part 0 ((3, 0) ∷ (5, 1) ∷ (3, 2) ∷ []) first_part-RespectsHash

abbrev wide : EndpointRecord
wide = record endpoint { bit_map = codes "[3:0][?i[j]][7]"; bit_map_logical_axes = true }

abbrev wide_axes : List (Option Axis)
wide_axes = some (pos 3, pos 0) ∷ none ∷ some (pos 7, pos 7) ∷ []

wide_axes_run : parse_endpoint_axes wide.bit_map ≡ some wide_axes
unfolding parse_endpoint_axes
wide_axes_run = refl

endpoint_matches_signal_axes-AllShare_example :
    (endpoint_matches_signal_axes wide ((pos 5, pos 2) ∷ (pos 9, pos 9) ∷ []) ≡ true)
    ↔ AllShare ((pos 5, pos 2) ∷ (pos 9, pos 9) ∷ []) wide_axes
endpoint_matches_signal_axes-AllShare_example =
    endpoint_matches_signal_axes-AllShare wide ((pos 5, pos 2) ∷ (pos 9, pos 9) ∷ []) wide_axes refl
      refl refl refl wide_axes_run
