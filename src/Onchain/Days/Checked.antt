-- ===== src/Onchain/Days/Checked.antt =====
-- `precheck` of src/bin/onchain_backfill.rs and a file that was there before.
use series_factory.Prelude.{
  ℕ, zero, suc, ◌-◌, ◌≡◌, refl, ◌⊎◌, inl, inr, String, Bool, true, false, not, ◌&&◌, Option, none,
  some, List, ◌==◌,
}
use series_factory.Files.{FilePath, World, same_path}
use series_factory.Onchain.Staged.Keeping.{
  Any, Apart, absent-Apart, Keeping, Leaves, bind-Keeping, pure-Keeping, imply-Keeping,
  weaken-Keeping, if-Keeping, lift-Keeping, of_io-Keeping,
}
use series_factory.Onchain.Days.{
  Look, Host, Args, sidecar_path, guard, is_some, exists, refuse_path, refuse_days, check_dir,
  precheck,
}

-- What is relied on: reads and the calls on directories keep every file that there is, a write every other.
pub record IsHost {U R J M : Type 0} (host : Host U R J M) : Type 0 where
  pub list_kept : (dir : String) (q : FilePath) (c : List U) → Leaves q c (host.list_shards dir)
  pub read_kept : (p q : FilePath) (c : List U) → Leaves q c (host.read p)
  pub create_kept :
      (dir : String) (q : FilePath) (c : List U) → Leaves q c (host.create_dir_all dir)
  pub lock_kept :
      (dir : String) (q : FilePath) (c : List U) → Leaves q c (host.acquire_idx_writer_lock dir)
  pub manifest_kept :
      (p : FilePath) (m : M) (q : FilePath) (c : List U)
      → same_path p q ≡ false
      → Leaves q c (host.write_manifest p m)

module _ {U R J M : Type 0} (host : Host U R J M) (q : FilePath) where
  -- The file is the shard of none of the `k` days from `d` on.
  abbrev pub OtherDays : String → ℕ → ℕ → Type 0
  OtherDays dir zero d = Unit {0}
  OtherDays dir (suc k) d = (same_path (host.shard_path dir d) q ≡ false) × OtherDays dir k (suc d)

  -- The file is none that the run is about.
  abbrev pub Other : Args → Type 0
  Other a =
      let dir = host.idx_dir a.out_root a.ticker_id in
      OtherDays dir (suc a.to - a.from) a.from
      × (same_path (sidecar_path a.out_root a.asset) q ≡ false)
      × (same_path (host.manifest_path dir) q ≡ false)

module _ {U : Type 0} (q : FilePath) (c : List U) where
  pub guard-Keeping : (ok : Bool) → Keeping q c (guard ok) (λ _. ok ≡ true)
  guard-Keeping true = pure-Keeping tt refl
  guard-Keeping false = record { run = λ st w e a. record { held = e; apart = a; result = tt } }

  is_some_absent :
      (p : FilePath) (w : World U) → w.files q ≡ some c → is_some (w.files p) ≡ false → Apart q p
  is_some_absent p w e h = absent-Apart q c p w.files (none_of (w.files p) h) e
    where
      none_of : (o : Option (List U)) → is_some o ≡ false → o ≡ none
      none_of none h = refl
      none_of (some bytes) h = cc

  exists-Keeping : (p : FilePath) → Keeping q c (exists p) (λ there. there ≡ false → Apart q p)
  unfolding exists
  exists-Keeping p = record {
    run = λ st w e a. record { held = e; apart = a; result = is_some_absent p w e };
  }

  passed-Apart :
      (p : FilePath) (there force : Bool)
      → (there ≡ false → Apart q p)
      → (force ≡ false) ⊎ Apart q p
      → not (there && not force) ≡ true
      → Apart q p
  passed-Apart p there force k (inr h) e = h
  passed-Apart p false force k (inl h) e = k refl
  passed-Apart p true true k (inl h) e = cc
  passed-Apart p true false k (inl h) e = cc

  -- A path that `refuse_path` lets pass is another, unless the run is forced.
  refuse_path-Keeping :
      (p : FilePath) (force : Bool)
      → (force ≡ false) ⊎ Apart q p
      → Keeping q c (refuse_path p force) (λ _. Apart q p)
  refuse_path-Keeping p force h = bind-Keeping (exists-Keeping p) (λ there k.
      imply-Keeping (guard-Keeping (not (there && not force)))
        (λ _ e. passed-Apart p there force k h e))

  module _ {R J M : Type 0} (host : Host U R J M) where
    module _ (laws : IsHost host) where
      refuse_days-Keeping :
          (dir : String) (force : Bool) (k d : ℕ)
          → (force ≡ false) ⊎ OtherDays host q dir k d
          → Keeping q c (refuse_days host dir force k d) (λ _. OtherDays host q dir k d)
      refuse_days-Keeping dir force zero d h = pure-Keeping tt tt
      refuse_days-Keeping dir force (suc k) d h =
          bind-Keeping (refuse_path-Keeping (host.shard_path dir d) force (first h)) (λ _ a.
            bind-Keeping (guard-Keeping (not (d == host.max_date))) (λ _ _.
              imply-Keeping (refuse_days-Keeping dir force k (suc d) (others h)) (λ _ b. (a, b))))
        where
          first :
              (force ≡ false) ⊎ (Apart q (host.shard_path dir d) × OtherDays host q dir k (suc d))
              → (force ≡ false) ⊎ Apart q (host.shard_path dir d)
          first (inl e) = inl e
          first (inr h) = inr h.0

          others :
              (force ≡ false) ⊎ (Apart q (host.shard_path dir d) × OtherDays host q dir k (suc d))
              → (force ≡ false) ⊎ OtherDays host q dir k (suc d)
          others (inl e) = inl e
          others (inr h) = inr h.1

      check_dir-Keeping :
          (look : Look) (out_root dir : String) (today : ℕ)
          → Keeping q c (check_dir host look out_root dir today) Any
      check_dir-Keeping look out_root dir today =
          bind-Keeping (of_io-Keeping (look.canonicalize dir)) (λ real _.
            bind-Keeping (of_io-Keeping (look.canonicalize out_root)) (λ root _.
              bind-Keeping (guard-Keeping (host.starts_with real root)) (λ _ _.
                bind-Keeping (lift-Keeping (host.list_shards dir) (laws.list_kept dir q c))
                  (λ shards _. weaken-Keeping (guard-Keeping _)))))

      pub precheck-Keeping :
          (a : Args) (look : Look)
          → (a.force ≡ false) ⊎ Other host q a
          → Keeping q c (precheck host a look) (λ _. Other host q a)
      unfolding precheck
      precheck-Keeping a look h =
          let dir = host.idx_dir a.out_root a.ticker_id in
          bind-Keeping (guard-Keeping _) (λ _ _.
            bind-Keeping
              (if-Keeping (look.exists dir) (check_dir-Keeping look a.out_root dir a.today)
                (pure-Keeping tt tt))
              (λ _ _.
                bind-Keeping (refuse_days-Keeping dir a.force (suc a.to - a.from) a.from (days h))
                  (λ _ ds.
                    bind-Keeping
                      (refuse_path-Keeping (sidecar_path a.out_root a.asset) a.force (side h))
                      (λ _ s.
                        imply-Keeping
                          (refuse_path-Keeping (host.manifest_path dir) a.force (manifest h))
                          (λ _ m. (ds, s, m))))))
        where
          days :
              (a.force ≡ false) ⊎ Other host q a
              → (a.force ≡ false)
                ⊎ OtherDays host q (host.idx_dir a.out_root a.ticker_id) (suc a.to - a.from) a.from
          days (inl e) = inl e
          days (inr h) = inr h.0

          side :
              (a.force ≡ false) ⊎ Other host q a
              → (a.force ≡ false) ⊎ Apart q (sidecar_path a.out_root a.asset)
          side (inl e) = inl e
          side (inr h) = inr h.1

          manifest :
              (a.force ≡ false) ⊎ Other host q a
              → (a.force ≡ false)
                ⊎ Apart q (host.manifest_path (host.idx_dir a.out_root a.ticker_id))
          manifest (inl e) = inl e
          manifest (inr h) = inr h.2
