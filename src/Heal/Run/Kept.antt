-- ===== src/Heal/Run/Kept.antt =====
-- The steps of `heal_ticker_shards` of src/idx_heal.rs that keep the ticker's directory and the backup.
use series_factory.Prelude.{
  ℕ, zero, suc, ◌≡◌, refl, ◌∙◌, Bool, true, false, Option, none, some, List, [], ◌∷◌, ◌++◌,
  is_empty, filter, length, ◌==◌, if◌then◌else◌,
}
use series_factory.Prelude.Outcome.{Outcome, ok, err}
use series_factory.Files.{Io, done, fault}
use series_factory.Mitch.{IndexRecord}
use series_factory.Heal.Chunk.{ChunkError}
use series_factory.Heal.Tree.{
  Dir, Tree, Action, continue, ◌>>=◌, pure, shard_of, found, spend, call, stage, or_empty,
  read_live, read_staging, write_staging, remove_staging, create_staging,
}
use series_factory.Heal.Run.{
  Env, Tally, samples, add_sample, sample_of, days_at, first_middle_last, median_of,
  detect_source_ms, staged_before, merge_into_staging_shard, merge_days, lift, route, heal_shard,
  heal_days, by_time, clear_stale, pass_through, rebuild,
}

module _ {R : Type 0} where
  pub record Keeps {A : Type 0} (m : Action R A) : Type 0 where
    pub live_kept : (t : Tree R) → (m t).1.live ≡ t.live
    pub backup_kept : (t : Tree R) → (m t).1.backup ≡ t.backup

  continue-live :
      {A B : Type 0} (r : Io A) (f : A → Action R B) (t : Tree R)
      → ((a : A) → Keeps (f a))
      → ((continue r f t).1.live ≡ t.live) × ((continue r f t).1.backup ≡ t.backup)
  continue-live (done a) f t h = ((h a).live_kept t, (h a).backup_kept t)
  continue-live (fault e) f t h = (refl, refl)

  pub >>=-Keeps :
      {A B : Type 0} {m : Action R A} {f : A → Action R B}
      → Keeps m
      → ((a : A) → Keeps (f a))
      → Keeps (m >>= f)
  >>=-Keeps {m = m} {f = f} h k = record {
    live_kept = λ t. (continue-live (m t).0 f (m t).1 k).0 ∙ h.live_kept t;
    backup_kept = λ t. (continue-live (m t).0 f (m t).1 k).1 ∙ h.backup_kept t;
  }

  pub if-Keeps :
      {A : Type 0} (b : Bool) {m n : Action R A} → Keeps m → Keeps n → Keeps (if b then m else n)
  if-Keeps true h k = h
  if-Keeps false h k = k

  pub pure-Keeps : {A : Type 0} (a : A) → Keeps (pure a)
  pure-Keeps a = record { live_kept = λ t. refl; backup_kept = λ t. refl }

  spend-kept :
      {A : Type 0} (n : ℕ) (act : Action R A) (t : Tree R)
      → Keeps act
      → ((spend n act t).1.live ≡ t.live) × ((spend n act t).1.backup ≡ t.backup)
  spend-kept zero act t h = (refl, refl)
  spend-kept (suc n) act t h =
      (h.live_kept (record t { budget = n }), h.backup_kept (record t { budget = n }))

  pub call-Keeps : {A : Type 0} (act : Action R A) → Keeps act → Keeps (call act)
  call-Keeps act h = record {
    live_kept = λ t. (spend-kept t.budget act t h).0;
    backup_kept = λ t. (spend-kept t.budget act t h).1;
  }

  found-kept :
      {A : Type 0} (o : Option A) (t : Tree R)
      → ((found o t).1.live ≡ t.live) × ((found o t).1.backup ≡ t.backup)
  found-kept none t = (refl, refl)
  found-kept (some a) t = (refl, refl)

  stage-kept :
      (day : ℕ) (recs : List R) (o : Option (Dir R)) (t : Tree R)
      → ((stage day recs o t).1.live ≡ t.live) × ((stage day recs o t).1.backup ≡ t.backup)
  stage-kept day recs none t = (refl, refl)
  stage-kept day recs (some dir) t = (refl, refl)

  read_live-Keeps : (day : ℕ) → Keeps (read_live day)
  unfolding read_live
  read_live-Keeps day =
      call-Keeps (λ t. found (shard_of day t.live) t)
        (record {
          live_kept = λ t. (found-kept (shard_of day t.live) t).0;
          backup_kept = λ t. (found-kept (shard_of day t.live) t).1;
        })

  read_staging-Keeps : (day : ℕ) → Keeps (read_staging day)
  unfolding read_staging
  read_staging-Keeps day =
      call-Keeps (λ t. found (shard_of day t.staging) t)
        (record {
          live_kept = λ t. (found-kept (shard_of day t.staging) t).0;
          backup_kept = λ t. (found-kept (shard_of day t.staging) t).1;
        })

  write_staging-Keeps : (day : ℕ) (recs : List R) → Keeps (write_staging day recs)
  unfolding write_staging
  write_staging-Keeps day recs =
      call-Keeps (λ t. stage day recs t.staging t)
        (record {
          live_kept = λ t. (stage-kept day recs t.staging t).0;
          backup_kept = λ t. (stage-kept day recs t.staging t).1;
        })

  remove_staging-Keeps : Keeps remove_staging
  unfolding remove_staging
  remove_staging-Keeps =
      call-Keeps (λ t. (done tt, record t { staging = none }))
        (record { live_kept = λ t. refl; backup_kept = λ t. refl })

  create_staging-Keeps : Keeps create_staging
  unfolding create_staging
  create_staging-Keeps =
      call-Keeps (λ t. (done tt, record t { staging = some (or_empty t.staging) }))
        (record { live_kept = λ t. refl; backup_kept = λ t. refl })

module _ {H F : Type 0} (env : Env H F) where
  abbrev Recs : Type 0
  Recs = List (IndexRecord H F)

  samples-Keeps : (days : List ℕ) → Keeps (samples env days)
  samples-Keeps [] = record { live_kept = λ t. refl; backup_kept = λ t. refl }
  samples-Keeps (day ∷ days) = record {
    live_kept = λ t.
        (later (samples-Keeps days) t).live_kept (read_live day t).1
        ∙ (read_live-Keeps day).live_kept t;
    backup_kept = λ t.
        (later (samples-Keeps days) t).backup_kept (read_live day t).1
        ∙ (read_live-Keeps day).backup_kept t;
  }
    where
      later :
          Keeps (samples env days)
          → (t : Tree (IndexRecord H F))
          → Keeps (
              samples env days >>= λ ns.
              pure (add_sample env (sample_of env (read_live day t).0) ns))
      later h t = >>=-Keeps h (λ ns. pure-Keeps _)

  detect-Keeps : (days : List ℕ) → Keeps (detect_source_ms env days)
  unfolding detect_source_ms
  detect-Keeps days =
      >>=-Keeps (samples-Keeps (days_at env (first_middle_last env (length days)) days))
        (λ found. pure-Keeps (median_of env found))

  staged_before-Keeps : (day : ℕ) (o : Option Recs) → Keeps (staged_before env day o)
  staged_before-Keeps day none = pure-Keeps []
  staged_before-Keeps day (some recs) = read_staging-Keeps day

  merge_into-Keeps : (day : ℕ) (recs : Recs) → Keeps (merge_into_staging_shard env day recs)
  unfolding merge_into_staging_shard
  merge_into-Keeps day recs = record {
    live_kept = λ t. (merging t).live_kept t;
    backup_kept = λ t. (merging t).backup_kept t;
  }
    where
      merging :
          (t : Tree (IndexRecord H F))
          → Keeps (
              staged_before env day (shard_of day t.staging) >>= λ existing.
              write_staging day (by_time env (existing ++ recs)))
      merging t =
          >>=-Keeps (staged_before-Keeps day (shard_of day t.staging))
            (λ existing. write_staging-Keeps day _)

  merge_days-Keeps :
      (days : List (ℕ × List (ℕ × IndexRecord H F))) (touched : List ℕ)
      → Keeps (merge_days env days touched)
  merge_days-Keeps [] touched = pure-Keeps touched
  merge_days-Keeps ((day, recs) ∷ days) touched =
      >>=-Keeps (merge_into-Keeps day _) (λ _. merge_days-Keeps days _)

  lift-Keeps : (o : Outcome ChunkError Recs) → Keeps (lift env o)
  lift-Keeps (ok recs) = pure-Keeps recs
  lift-Keeps (err e) = record { live_kept = λ t. refl; backup_kept = λ t. refl }

  route-Keeps : (dry_run : Bool) (out : Recs) (c : Tally) → Keeps (route env dry_run out c)
  route-Keeps dry_run out c =
      if-Keeps dry_run (pure-Keeps c) (>>=-Keeps (merge_days-Keeps _ _) (λ days. pure-Keeps _))

  heal_shard-Keeps :
      (ticker_id target_ms : ℕ) (resampled dry_run : Bool) (recs : Recs) (c : Tally)
      → Keeps (heal_shard env ticker_id target_ms resampled dry_run recs c)
  unfolding heal_shard
  heal_shard-Keeps ticker_id target_ms resampled dry_run recs c =
      if-Keeps (is_empty (filter (λ (r : IndexRecord H F). r.index.ticker == ticker_id) recs))
        (pure-Keeps _) (>>=-Keeps (lift-Keeps _) (λ out. route-Keeps dry_run out _))

  heal_days-Keeps :
      (ticker_id target_ms : ℕ) (resampled dry_run : Bool) (days : List ℕ) (c : Tally)
      → Keeps (heal_days env ticker_id target_ms resampled dry_run days c)
  heal_days-Keeps ticker_id target_ms resampled dry_run [] c = pure-Keeps c
  heal_days-Keeps ticker_id target_ms resampled dry_run (day ∷ days) c =
      >>=-Keeps (read_live-Keeps day) (λ recs.
        >>=-Keeps (heal_shard-Keeps ticker_id target_ms resampled dry_run recs c)
          (λ c'. heal_days-Keeps ticker_id target_ms resampled dry_run days c'))

  abbrev cleared : Option (Dir (IndexRecord H F)) → Action (IndexRecord H F) (Unit {0})
  cleared o t = elim o [ none ↦ (done tt, t) | some _ ↦ remove_staging t ]

  cleared-Keeps : (o : Option (Dir (IndexRecord H F))) → Keeps (cleared o)
  cleared-Keeps none = record { live_kept = λ t. refl; backup_kept = λ t. refl }
  cleared-Keeps (some dir) = remove_staging-Keeps

  clear_stale-Keeps : Keeps (clear_stale env)
  clear_stale-Keeps = record {
    live_kept = λ t. (cleared-Keeps t.staging).live_kept t;
    backup_kept = λ t. (cleared-Keeps t.staging).backup_kept t;
  }

  pub rebuild-Keeps :
      (ticker_id target : ℕ) (dry_run : Bool) (closed : List ℕ)
      → Keeps (rebuild env ticker_id target dry_run closed)
  rebuild-Keeps ticker_id target dry_run closed = >>=-Keeps (detect-Keeps closed) (λ detected.
      >>=-Keeps clear_stale-Keeps (λ _.
        >>=-Keeps (if-Keeps dry_run (pure-Keeps tt) create_staging-Keeps) (λ _.
          >>=-Keeps (heal_days-Keeps ticker_id target _ dry_run closed _) (λ c. pure-Keeps _))))

  pub pass_through-Keeps :
      (today_src : Option ℕ) (today : ℕ) → Keeps (pass_through env today_src today)
  pass_through-Keeps none today = pure-Keeps tt
  pass_through-Keeps (some day) today =
      >>=-Keeps (read_live-Keeps day) (λ recs. write_staging-Keeps today recs)
