-- ===== src/Onchain/Days/Kept.antt =====
-- `write_days` of src/bin/onchain_backfill.rs and a file that was there before.
use series_factory.Prelude.{
  ℕ, zero, suc, ◌-◌, ◌≡◌, ◌⊎◌, inr, ◌∙◌, String, false, not, some, List, [], ◌∷◌, map, length,
  is_empty, All, ◌==◌,
}
use series_factory.Files.{FilePath, World, Io}
use series_factory.Files.Laws.{remove_file_other}
use series_factory.Onchain.Staged.Keeping.{
  Any, Apart, Keeping, bind-Keeping, pure-Keeping, if-Keeping, lift-Keeping, of_io-Keeping,
  put-Keeping, commit-Keeping, dropping-kept, Returns-Any,
}
use series_factory.Onchain.Days.{
  Look, Host, Job, Plan, Args, sidecar_path, prune, rows_of, add_day, plan_days, entry_of,
  suffix_at, stage_jobs, commit_jobs, prune_days, entries_of, publish, write_plan, write_days,
}
use series_factory.Onchain.Days.Checked.{IsHost, OtherDays, Other, guard-Keeping, precheck-Keeping}

module _ {U : Type 0} (q : FilePath) (c : List U) {R J M : Type 0} (host : Host U R J M)
    (laws : IsHost host) where
  abbrev OtherPlan : String → Plan R → Type 0
  OtherPlan dir p =
      All (λ (job : Job R). Apart q job.path) p.jobs
      × All (λ d. Apart q (host.shard_path dir d)) p.skipped

  add_day-OtherPlan :
      (dir : String) (d : ℕ) (rows : List R) (p : Plan R)
      → Apart q (host.shard_path dir d)
      → OtherPlan dir p
      → OtherPlan dir (add_day host (host.shard_path dir d) d rows p)
  add_day-OtherPlan dir d [] p a h = (h.0, (a, h.1))
  add_day-OtherPlan dir d (r ∷ rows) p a h = ((a, h.0), h.1)

  plan_days-Keeping :
      (dir : String) (recs : List (ℕ × R)) (k d : ℕ)
      → OtherDays host q dir k d
      → Keeping q c (plan_days host dir recs k d) (OtherPlan dir)
  plan_days-Keeping dir recs zero d h = pure-Keeping _ (tt, tt)
  plan_days-Keeping dir recs (suc k) d h =
      bind-Keeping (guard-Keeping q c (not (d == host.max_date))) (λ _ _.
        bind-Keeping (plan_days-Keeping dir recs k (suc d) h.1)
          (λ p o. pure-Keeping _ (add_day-OtherPlan dir d (rows_of host recs d) p h.0 o)))

  entry_of-Keeping : (d : ℕ) (p : FilePath) → Keeping q c (entry_of host d p) Any
  entry_of-Keeping d p =
      bind-Keeping (lift-Keeping (host.read p) (laws.read_kept p q c)) (λ bytes _. of_io-Keeping _)

  abbrev OtherStaged : List (FilePath × J) → Type 0
  OtherStaged = All (λ (s : FilePath × J). Apart q s.0)

  stage_jobs-Keeping :
      (clock : ℕ → Io ℕ) (i : ℕ) (jobs : List (Job R))
      → Keeping q c (stage_jobs host clock i jobs) OtherStaged
  stage_jobs-Keeping clock i [] = pure-Keeping [] tt
  stage_jobs-Keeping clock i (job ∷ jobs) =
      bind-Keeping
        (put-Keeping job.path (suffix_at host clock i job.path) (host.layout.to_bytes job.rows))
        (λ tmp a. bind-Keeping (entry_of-Keeping job.date tmp) (λ entry _.
          bind-Keeping (of_io-Keeping (host.to_value entry)) (λ value _.
            bind-Keeping (stage_jobs-Keeping clock (suc i) jobs)
              (λ rest b. pure-Keeping ((tmp, value) ∷ rest) (a, b)))))

  commit_jobs-Keeping :
      (jobs : List (Job R)) (staged : List (FilePath × J))
      → All (λ (job : Job R). Apart q job.path) jobs
      → OtherStaged staged
      → Keeping q c (commit_jobs host jobs staged) Any
  commit_jobs-Keeping [] staged h k = pure-Keeping [] tt
  commit_jobs-Keeping (job ∷ jobs) [] h k = pure-Keeping [] tt
  commit_jobs-Keeping (job ∷ jobs) ((tmp, value) ∷ staged) h k =
      bind-Keeping (commit-Keeping tmp job.path k.0 h.0) (λ _ _.
        bind-Keeping (commit_jobs-Keeping jobs staged h.1 k.1) (λ rest _. pure-Keeping _ tt))

  prune_days-Keeping :
      (dir : String) (days : List ℕ)
      → All (λ d. Apart q (host.shard_path dir d)) days
      → Keeping q c (prune_days host dir days) Any
  prune_days-Keeping dir [] h = pure-Keeping tt tt
  prune_days-Keeping dir (d ∷ days) h =
      bind-Keeping {P = Any} (pruned (host.shard_path dir d) h.0)
        (λ _ _. prune_days-Keeping dir days h.1)
    where
      pruned : (p : FilePath) → Apart q p → Keeping q c (prune p) Any
      pruned p h = record {
        run = λ st w e a. record {
          held = remove_file_other p q w h ∙ e;
          apart = a;
          result = Returns-Any _;
        };
      }

  entries_of-Keeping : (shards : List (ℕ × FilePath)) → Keeping q c (entries_of host shards) Any
  entries_of-Keeping [] = pure-Keeping [] tt
  entries_of-Keeping ((d, p) ∷ shards) =
      bind-Keeping (entry_of-Keeping d p)
        (λ e _. bind-Keeping (entries_of-Keeping shards) (λ es _. pure-Keeping _ tt))

  publish-Keeping :
      (a : Args) (p : Plan R) (staged : List (FilePath × J)) (sp_tmp : FilePath)
      → Other host q a
      → OtherPlan (host.idx_dir a.out_root a.ticker_id) p
      → OtherStaged staged
      → Apart q sp_tmp
      → Keeping q c (publish host a p staged sp_tmp) Any
  publish-Keeping a p staged sp_tmp h k s t =
      let dir = host.idx_dir a.out_root a.ticker_id in
      bind-Keeping (commit_jobs-Keeping p.jobs staged k.0 s) (λ written _.
        bind-Keeping (commit-Keeping sp_tmp (sidecar_path a.out_root a.asset) t h.1) (λ _ _.
          bind-Keeping
            (if-Keeping a.prune_empty (prune_days-Keeping dir p.skipped k.1) (pure-Keeping tt tt))
            (λ _ _.
              bind-Keeping (lift-Keeping (host.list_shards dir) (laws.list_kept dir q c))
                (λ shards _. bind-Keeping (entries_of-Keeping shards) (λ es _.
                  bind-Keeping
                    (lift-Keeping
                      (host.write_manifest (host.manifest_path dir)
                        (host.manifest a.ticker a.ticker_id es))
                      (laws.manifest_kept (host.manifest_path dir)
                        (host.manifest a.ticker a.ticker_id es) q c h.2))
                    (λ _ _. pure-Keeping (written, p.skipped) tt))))))

  write_plan-Keeping :
      (a : Args) (look : ℕ → Look) (clock : ℕ → Io ℕ) (side : List J → List ℕ → Io J) (p : Plan R)
      → Other host q a
      → OtherPlan (host.idx_dir a.out_root a.ticker_id) p
      → Keeping q c (write_plan host a look clock side p) Any
  unfolding write_plan
  write_plan-Keeping a look clock side p h k =
      let dir = host.idx_dir a.out_root a.ticker_id in
      let sp = sidecar_path a.out_root a.asset in
      bind-Keeping (stage_jobs-Keeping clock 0 p.jobs) (λ staged s.
        bind-Keeping (of_io-Keeping (side (map (λ (s : FilePath × J). s.1) staged) p.skipped))
          (λ doc _. bind-Keeping (of_io-Keeping (host.to_string_pretty doc)) (λ text _.
            bind-Keeping (put-Keeping sp (suffix_at host clock (length p.jobs) sp) text)
              (λ sp_tmp t.
                bind-Keeping (precheck-Keeping q c host laws a (look 2) (inr h))
                  (λ _ _. publish-Keeping a p staged sp_tmp h k s t)))))

  -- Whatever fails and wherever the run stops, a file that was there before is still there with its
  -- content, unless the run is forced and the file is one that the run is about.
  pub write_days_kept :
      (a : Args) (look : ℕ → Look) (clock : ℕ → Io ℕ) (side : List J → List ℕ → Io J)
      (recs : List (ℕ × R)) (w : World U)
      → (a.force ≡ false) ⊎ Other host q a
      → w.files q ≡ some c
      → (write_days host a look clock side recs w).1.files q ≡ some c
  unfolding write_days
  write_days_kept a look clock side recs w h e =
      let dir = host.idx_dir a.out_root a.ticker_id in
      dropping-kept _ w
        (bind-Keeping (precheck-Keeping q c host laws a (look 0) h) (λ _ h'.
          bind-Keeping (lift-Keeping (host.create_dir_all dir) (laws.create_kept dir q c)) (λ _ _.
            bind-Keeping (lift-Keeping (host.acquire_idx_writer_lock dir) (laws.lock_kept dir q c))
              (λ _ _. bind-Keeping (precheck-Keeping q c host laws a (look 1) h) (λ _ _.
                bind-Keeping (plan_days-Keeping dir recs (suc a.to - a.from) a.from h'.0) (λ p k.
                  bind-Keeping (guard-Keeping q c (not (is_empty p.jobs)))
                    (λ _ _. write_plan-Keeping a look clock side p h' k)))))))
        e
