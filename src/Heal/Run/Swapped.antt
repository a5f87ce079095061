-- ===== src/Heal/Run/Swapped.antt =====
-- The swap of the directories in `heal_ticker_shards` of src/idx_heal.rs.
use series_factory.Prelude.{
  ℕ, zero, suc, ◌≡◌, ◌⊎◌, inl, inr, refl, ◌∙◌, Bool, true, false, not, ◌&&◌, Option, none, some,
  List, [], ◌∷◌, filter, find?, leb, ltb, if◌then◌else◌,
}
use series_factory.Prelude.Int.{ℤ, pos, negsuc}
use series_factory.Files.{Io, done, fault, refused}
use series_factory.Mitch.{IndexRecord}
use series_factory.Heal.Tree.{
  Dir, Tree, Action, continue, ◌>>=◌, ◌>>◌, pure, throw, back_up, promote,
}
use series_factory.Heal.Run.{
  Env, HealReport, days_of, swap, publish, heal_closed, heal_dir, heal_ticker_shards,
}
use series_factory.Heal.Run.Kept.{Keeps, >>=-Keeps, pure-Keeps, rebuild-Keeps, pass_through-Keeps}

module _ {R : Type 0} where
  -- The directory is in place, or whole in the backup.
  abbrev pub Recoverable : Dir R → Tree R → Type 0
  Recoverable dir t = (t.live ≡ some dir) ⊎ (t.backup ≡ some dir)

  swapped-Recoverable :
      (n : ℕ) (dir : Dir R) (live staging backup : Option (Dir R))
      → live ≡ some dir
      → Recoverable dir
          ((back_up >> promote)
            (record { live = live; staging = staging; backup = backup; budget = n })).1
  unfolding back_up promote
  swapped-Recoverable zero dir live staging backup e = inl e
  swapped-Recoverable (suc n) dir none staging backup e = cc e
  swapped-Recoverable (suc zero) dir (some d) staging backup e = inr e
  swapped-Recoverable (suc (suc n)) dir (some d) none backup e = inr e
  swapped-Recoverable (suc (suc n)) dir (some d) (some s) backup e = inr e

  continue-Recoverable :
      {A B : Type 0} (dir : Dir R) (r : Io A) (f : A → Action R B) (t : Tree R)
      → t.live ≡ some dir
      → ((a : A) → Recoverable dir (f a t).1)
      → Recoverable dir (continue r f t).1
  continue-Recoverable dir (done a) f t e h = h a
  continue-Recoverable dir (fault x) f t e h = inl e

  -- A step that keeps the directory, and one behind it.
  after-Recoverable :
      {A B : Type 0} (dir : Dir R) {m : Action R A} (f : A → Action R B) (t : Tree R)
      → Keeps m
      → t.live ≡ some dir
      → ((a : A) (u : Tree R) → u.live ≡ some dir → Recoverable dir (f a u).1)
      → Recoverable dir ((m >>= f) t).1
  after-Recoverable dir {m} f t k e h =
      continue-Recoverable dir (m t).0 f (m t).1 (k.live_kept t ∙ e)
        (λ a. h a (m t).1 (k.live_kept t ∙ e))

module _ {H F : Type 0} (env : Env H F) where
  swap-Recoverable :
      (commit : Bool) (dir : Dir (IndexRecord H F)) (u : Tree (IndexRecord H F))
      → u.live ≡ some dir
      → Recoverable dir (swap env commit u).1
  swap-Recoverable false dir u e = inl e
  swap-Recoverable true dir u e = locked env.lock_free
    where
      locked : (b : Bool) → Recoverable dir ((if b then back_up >> promote else throw refused) u).1
      locked true = swapped-Recoverable u.budget dir u.live u.staging u.backup e
      locked false = inl e

  publish-Recoverable :
      (dry_run commit : Bool) (today_src : Option ℕ) (today : ℕ) (dir : Dir (IndexRecord H F))
      (u : Tree (IndexRecord H F))
      → u.live ≡ some dir
      → Recoverable dir (publish env dry_run commit today_src today u).1
  publish-Recoverable true commit today_src today dir u e = inl e
  publish-Recoverable false commit today_src today dir u e =
      after-Recoverable dir (λ _. swap env commit) u (pass_through-Keeps env today_src today) e
        (λ a v f. swap-Recoverable commit dir v f)

  closed-Recoverable :
      (today ticker_id target : ℕ) (dry_run commit : Bool) (today_src : Option ℕ) (closed : List ℕ)
      (dir : Dir (IndexRecord H F)) (t : Tree (IndexRecord H F))
      → t.live ≡ some dir
      → Recoverable dir (heal_closed env today ticker_id target dry_run commit today_src closed t).1
  closed-Recoverable today ticker_id target dry_run commit today_src [] dir t e = inl e
  closed-Recoverable today ticker_id target dry_run commit today_src (day ∷ days) dir t e =
      after-Recoverable dir _ t (rebuild-Keeps env ticker_id target dry_run (day ∷ days)) e
        (λ report u f.
          last report (publish env dry_run commit today_src today u)
            (publish-Recoverable dry_run commit today_src today dir u f))
    where
      last :
          (report : HealReport) (r : Io (Unit {0}) × Tree (IndexRecord H F))
          → Recoverable dir r.1
          → Recoverable dir (continue r.0 (λ _. pure report) r.1).1
      last report (done x, u) h = h
      last report (fault x, u) h = h

  -- Wherever a run stops, a directory that was there is in place as it was, or whole in the backup.
  pub heal_ticker_shards-Recoverable :
      (today ticker_id : ℕ) (target_ms : ℤ) (dry_run commit : Bool) (dir : Dir (IndexRecord H F))
      (t : Tree (IndexRecord H F))
      → t.live ≡ some dir
      → Recoverable dir (heal_ticker_shards env today ticker_id target_ms dry_run commit t).1
  unfolding heal_ticker_shards
  heal_ticker_shards-Recoverable today ticker_id (negsuc n) dry_run commit dir t e = inl e
  heal_ticker_shards-Recoverable today ticker_id (pos zero) dry_run commit dir t e = inl e
  heal_ticker_shards-Recoverable today ticker_id (pos (suc n)) dry_run commit dir t e =
      opened t.live e
    where
      opened :
          (o : Option (Dir (IndexRecord H F)))
          → o ≡ some dir
          → Recoverable dir (heal_dir env today ticker_id (suc n) dry_run commit o t).1
      opened none f = cc f
      opened (some d) f =
          closed-Recoverable today ticker_id (suc n) dry_run commit
            (find? (λ k. leb today k) (days_of env d)) (filter (λ k. ltb k today) (days_of env d))
            dir t e

  closed-Keeps :
      (today ticker_id target : ℕ) (dry_run commit : Bool) (today_src : Option ℕ) (closed : List ℕ)
      → not dry_run && commit ≡ false
      → Keeps (heal_closed env today ticker_id target dry_run commit today_src closed)
  closed-Keeps today ticker_id target dry_run commit today_src [] h = record {
    live_kept = λ t. refl;
    backup_kept = λ t. refl;
  }
  closed-Keeps today ticker_id target true commit today_src (day ∷ days) h =
      >>=-Keeps (rebuild-Keeps env ticker_id target true (day ∷ days))
        (λ report. >>=-Keeps (pure-Keeps tt) (λ _. pure-Keeps report))
  closed-Keeps today ticker_id target false true today_src (day ∷ days) h = cc h
  closed-Keeps today ticker_id target false false today_src (day ∷ days) h =
      >>=-Keeps (rebuild-Keeps env ticker_id target false (day ∷ days)) (λ report.
        >>=-Keeps (>>=-Keeps (pass_through-Keeps env today_src today) (λ _. pure-Keeps tt))
          (λ _. pure-Keeps report))

  -- A dry run, and one that does not commit, leave the directory and the backup as they are.
  heal_ticker_shards-Keeps :
      (today ticker_id : ℕ) (target_ms : ℤ) (dry_run commit : Bool)
      → not dry_run && commit ≡ false
      → (t : Tree (IndexRecord H F))
      → ((heal_ticker_shards env today ticker_id target_ms dry_run commit t).1.live ≡ t.live)
        × ((heal_ticker_shards env today ticker_id target_ms dry_run commit t).1.backup ≡ t.backup)
  unfolding heal_ticker_shards
  heal_ticker_shards-Keeps today ticker_id (negsuc n) dry_run commit h t = (refl, refl)
  heal_ticker_shards-Keeps today ticker_id (pos zero) dry_run commit h t = (refl, refl)
  heal_ticker_shards-Keeps today ticker_id (pos (suc n)) dry_run commit h t = opened t.live
    where
      opened :
          (o : Option (Dir (IndexRecord H F)))
          → ((heal_dir env today ticker_id (suc n) dry_run commit o t).1.live ≡ t.live)
            × ((heal_dir env today ticker_id (suc n) dry_run commit o t).1.backup ≡ t.backup)
      opened none = (refl, refl)
      opened (some d) =
          let kept =
            closed-Keeps today ticker_id (suc n) dry_run commit
              (find? (λ k. leb today k) (days_of env d)) (filter (λ k. ltb k today) (days_of env d))
              h in
          (kept.live_kept t, kept.backup_kept t)
