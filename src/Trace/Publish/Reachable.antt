-- ===== src/Trace/Publish/Reachable.antt =====
-- The cache is right in every state that compilations can lead to, also those that were stopped.
use auto_waveform_debugger.Base.{
  ◌≡◌, refl, sym, ap, ◌∙◌, true, Option, none, some, [], ◌∷◌, ◌++◌, Str, arith, Option-cases, inl,
  inr, length, length-append, str_eq_iff,
}
use mathlib.Core.Path.{subst}
use auto_waveform_debugger.Trace.Publish.{
  read_cache_header, cache_envelope, Disk, metadata, write_meta, unlink_meta, rename_db,
  rename_meta, Stage, prepared, db_closed, meta_closed, meta_invalidated, db_published,
  publish_step, Process, idle, compiling, after, graph_compile_cache_hit, same_meta,
}

pub record World : Type 0 where
  pub disk : Disk
  pub process : Process

abbrev pub with_temps : Option Str → Option Str → Disk → Disk
with_temps db_temp meta_temp d = record d { db_temp = db_temp; meta_temp = meta_temp }

-- `Builds fingerprint file`: the compiler writes the file under the fingerprint.
module _ (Builds : Str → Str → Type 0) where
  -- A compilation starts when none runs, since it holds the lock. It does one step after the other,
  -- and it may fail or be stopped at any place, with the staging files removed or left in any state.
  pub data Step : World → World → Type 0 where
    start :
        (w : World) (fingerprint file : Str)
        → w.process ≡ idle
        → Builds fingerprint file
        → Step w (record {
          disk = with_temps (some file) (some []) w.disk;
          process = compiling fingerprint prepared;
        })
    advance :
        (w : World) (fingerprint : Str) (stage : Stage) (d : Disk)
        → w.process ≡ compiling fingerprint stage
        → publish_step stage fingerprint w.disk ≡ some d
        → Step w (record { disk = d; process = after fingerprint stage })
    stop :
        (w : World) (db_temp meta_temp : Option Str)
        → Step w (record { disk = with_temps db_temp meta_temp w.disk; process = idle })

  pub data Reach (w : World) : World → Type 0 where
    here : Reach w w
    next : {u v : World} → Reach w u → Step u v → Reach w v

  -- The metadata is that of a file which was built under the fingerprint in it.
  abbrev pub Certifies : Option Str → Str → Str → Type 0
  Certifies file fingerprint m =
      (f : Str) × (file ≡ some f) × Builds fingerprint f × (metadata fingerprint (some f) ≡ some m)

  -- Where the database has metadata, the metadata certifies it.
  abbrev pub IsSound : Disk → Type 0
  IsSound d = (m : Str) → d.meta ≡ some m → (fingerprint : Str) × Certifies d.db fingerprint m

  abbrev Staged : Str → Stage → Disk → Type 0
  Staged fingerprint prepared d = (f : Str) × (d.db_temp ≡ some f) × Builds fingerprint f
  Staged fingerprint db_closed d = (f : Str) × (d.db_temp ≡ some f) × Builds fingerprint f
  Staged fingerprint meta_closed d =
      (m : Str) × (d.meta_temp ≡ some m) × Certifies d.db_temp fingerprint m
  Staged fingerprint meta_invalidated d =
      (m : Str) × (d.meta_temp ≡ some m) × Certifies d.db_temp fingerprint m × (d.meta ≡ none)
  Staged fingerprint db_published d =
      (m : Str) × (d.meta_temp ≡ some m) × Certifies d.db fingerprint m × (d.meta ≡ none)

  abbrev AtStage : Process → Disk → Type 0
  AtStage idle d = Unit
  AtStage (compiling fingerprint stage) d = Staged fingerprint stage d

  -- What is found of a computed disk holds of the disk it is equal to.
  at_result {ℓ} :
      (P : Disk → Type ℓ) {o : Option Disk} (x d' : Disk) → o ≡ some x → o ≡ some d' → P x → P d'
  at_result P x d' e h p = subst P (cc (e, h)) p

  none-IsSound : (d : Disk) → d.meta ≡ none → IsSound d
  none-IsSound d e m h = cc (e, h)

  -- The steps of Publish keep the database certified, and prepare for the next step.
  publish_step-IsSound :
      (fingerprint : Str) (stage : Stage) (d d' : Disk)
      → IsSound d
      → Staged fingerprint stage d
      → publish_step stage fingerprint d ≡ some d'
      → IsSound d' × AtStage (after fingerprint stage) d'
  unfolding publish_step
  publish_step-IsSound fp prepared d d' sound staged h =
      at_result (λ x. IsSound x × Staged fp db_closed x) d d' refl h (sound, staged)
  publish_step-IsSound fp db_closed d d' sound (f, e, b) h =
      elim (Option-cases (metadata fp (some f))) [
        | inl unread ↦
            let failed : write_meta fp d ≡ none =
              unfold write_meta in rw (write_meta, ap (metadata fp) e ∙ unread) refl in
            cc (failed, h)
        | inr (m, read) ↦
            at_result (λ x. IsSound x × Staged fp meta_closed x) (record d { meta_temp = some m })
              d' (unfold write_meta in rw (write_meta, ap (metadata fp) e ∙ read) refl) h
              (sound, (m, refl, (f, e, b, read)))
      ]
  publish_step-IsSound fp meta_closed d d' sound (m, e, c) h =
      at_result (λ x. IsSound x × Staged fp meta_invalidated x) (record d { meta = none }) d'
        (unfold unlink_meta in refl) h
        (none-IsSound (record d { meta = none }) refl, (m, e, c, refl))
  publish_step-IsSound fp meta_invalidated d d' sound (m, e, (f, t, b, read), gone) h =
      at_result (λ x. IsSound x × Staged fp db_published x)
        (record d { db = some f; db_temp = none }) d' (unfold rename_db in rw t refl) h
        (
          none-IsSound (record d { db = some f; db_temp = none }) gone,
          (m, e, (f, refl, b, read), gone),
        )
  publish_step-IsSound fp db_published d d' sound (m, e, c, gone) h =
      at_result (λ x. IsSound x × AtStage idle x) (record d { meta = some m; meta_temp = none }) d'
        (unfold rename_meta in rw e refl) h
        ((λ m' h'. (fp, subst (Certifies d.db fp) (cc h') c)), tt)

  Step-IsSound :
      {w v : World}
      → Step w v
      → IsSound w.disk × AtStage w.process w.disk
      → IsSound v.disk × AtStage v.process v.disk
  Step-IsSound (start w fp file e b) inv = (inv.0, (file, refl, b))
  Step-IsSound (advance w fp stage d e h) inv =
      publish_step-IsSound fp stage w.disk d inv.0 (subst (λ p. AtStage p w.disk) e inv.1) h
  Step-IsSound (stop w db_temp meta_temp) inv = (inv.0, tt)

  Reach-IsSound :
      {w v : World}
      → IsSound w.disk × AtStage w.process w.disk
      → Reach w v
      → IsSound v.disk × AtStage v.process v.disk
  Reach-IsSound inv here = inv
  Reach-IsSound inv (next r s) = Step-IsSound s (Reach-IsSound inv r)

append-cancel : (s t u : Str) → s ++ u ≡ t ++ u → s ≡ t
append-cancel [] [] u e = refl
append-cancel [] (c ∷ t) u e = absurd (omega (arith, ap length e, length-append {0} t u))
append-cancel (c ∷ s) [] u e = absurd (omega (arith, ap length e, length-append {0} s u))
append-cancel (c ∷ s) (d ∷ t) u e = ground (arith, append-cancel s t u)

-- The metadata of one file tells the fingerprints apart.
metadata-injective :
    (fp fp' f m : Str) → metadata fp (some f) ≡ some m → metadata fp' (some f) ≡ some m → fp ≡ fp'
unfolding metadata
metadata-injective fp fp' f m h k = elim (Option-cases (read_cache_header f)) [
  | inl unread ↦ cc (rw (metadata, unread) at h)
  | inr ((header, size), read) ↦
      append-cancel fp fp' (cache_envelope header size)
        (cc (rw (metadata, read) at h, rw (metadata, read) at k))
]

same_meta-eq :
    (expected actual : Option Str)
    → same_meta expected actual ≡ true
    → (m : Str) × (expected ≡ some m) × (actual ≡ some m)
same_meta-eq none actual h = cc
same_meta-eq (some m) none h = cc
same_meta-eq (some m) (some n) h = (m, refl, ap some ((str_eq_iff n m).0 h))

hit_metadata :
    (fp : Str) (d : Disk)
    → graph_compile_cache_hit fp d ≡ true
    → (m : Str) × (metadata fp d.db ≡ some m) × (d.meta ≡ some m)
unfolding graph_compile_cache_hit
hit_metadata fp d h = same_meta-eq (metadata fp d.db) d.meta h

-- From a disk whose metadata, if there is any, certifies its database, and with no compilation
-- running: whatever compilations are run, and wherever they fail or are stopped, a cache hit for a
-- fingerprint is given only if there is a database, and it was built under this fingerprint.
pub cache_hit_sound :
    (Builds : Str → Str → Type 0) (w v : World) (fingerprint : Str)
    → IsSound Builds w.disk
    → w.process ≡ idle
    → Reach Builds w v
    → graph_compile_cache_hit fingerprint v.disk ≡ true
    → (f : Str) × (v.disk.db ≡ some f) × Builds fingerprint f
cache_hit_sound Builds w v fp sound quiet reached hit =
    let (m, expected, found) = hit_metadata fp v.disk hit in
    let (kept, staged) =
      Reach-IsSound Builds (sound, subst (λ p. AtStage Builds p w.disk) (sym quiet) tt) reached in
    let (fp', (f, e, b, read)) = kept m found in
    let same : fp ≡ fp' =
      metadata-injective fp fp' f m (ap (metadata fp) (sym e) ∙ expected) read in
    (f, e, subst (λ x. Builds x f) (sym same) b)
