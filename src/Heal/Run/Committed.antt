-- ===== src/Heal/Run/Committed.antt =====
-- What a committed run of `heal_ticker_shards` of src/idx_heal.rs leaves behind.
use series_factory.Prelude.{
  ℕ, zero, suc, ◌≤◌, ◌<◌, ◌≡◌, refl, sym, subst, ◌∙◌, ap, Bool, true, false, Option, none, some,
  List, [], ◌∷◌, arith, filter, find?, leb, ltb, if◌then◌else◌,
}
use series_factory.Prelude.Int.{ℤ, pos, negsuc}
use series_factory.Files.{Io, done, fault, refused}
use series_factory.Mitch.{IndexRecord}
use series_factory.Heal.Bins.Chunks.{Increasing}
use series_factory.Heal.Tree.{
  Dir, Tree, Action, continue, ◌>>=◌, ◌>>◌, pure, throw, lookup_day, put_day, shard_of, read_live,
  write_staging, back_up, promote,
}
use series_factory.Heal.Run.{
  Env, HealReport, days_of, pass_through, swap, publish, rebuild, heal_closed, heal_dir,
  heal_ticker_shards,
}
use series_factory.Heal.Run.Kept.{rebuild-Keeps}

module _ {R : Type 0} where
  continue-done :
      {A B : Type 0} (r : Io A) (f : A → Action R B) (t : Tree R) (b : B)
      → (continue r f t).0 ≡ done b
      → (a : A) × (r ≡ done a) × ((f a t).0 ≡ done b) × (continue r f t ≡ f a t)
  continue-done (done a) f t b h = (a, refl, h, refl)
  continue-done (fault e) f t b h = cc h

  lookup_day-put_day :
      (day : ℕ) (recs : List R) (dir : Dir R) → lookup_day day (put_day day recs dir) ≡ some recs
  lookup_day-put_day day recs [] = ground arith
  lookup_day-put_day day recs ((d, old) ∷ dir) = ground (arith, lookup_day-put_day day recs dir)

  -- The directory is whole in the backup, and the live one is what was staged.
  abbrev Swapped : Dir R → Dir R → Tree R → Type 0
  Swapped dir new u = (u.live ≡ some new) × (u.backup ≡ some dir)

  swap-done :
      (n : ℕ) (dir : Dir R) (live staging backup : Option (Dir R))
      → live ≡ some dir
      → ((back_up >> promote)
          (record { live = live; staging = staging; backup = backup; budget = n })).0
        ≡ done tt
      → (new : Dir R) × (staging ≡ some new)
        × Swapped dir new
            ((back_up >> promote)
              (record { live = live; staging = staging; backup = backup; budget = n })).1
  unfolding back_up promote
  swap-done zero dir live staging backup e h = cc h
  swap-done (suc n) dir none staging backup e h = cc e
  swap-done (suc zero) dir (some d) staging backup e h = cc h
  swap-done (suc (suc n)) dir (some d) none backup e h = cc h
  swap-done (suc (suc n)) dir (some d) (some s) backup e h = (s, refl, (refl, e))

  -- A shard that was written is in staging, and the directory still in place.
  abbrev Copied : ℕ → List R → Dir R → Tree R → Type 0
  Copied today recs dir u =
      (new : Dir R) × (u.staging ≡ some new)
      × (lookup_day today new ≡ some recs)
      × (u.live ≡ some dir)

  write_staging-Copied :
      (n today : ℕ) (recs : List R) (dir : Dir R) (live staging backup : Option (Dir R))
      → live ≡ some dir
      → (write_staging today recs
          (record { live = live; staging = staging; backup = backup; budget = n })).0
        ≡ done tt
      → Copied today recs dir
          (write_staging today recs
            (record { live = live; staging = staging; backup = backup; budget = n })).1
  unfolding write_staging
  write_staging-Copied zero today recs dir live staging backup e h = cc h
  write_staging-Copied (suc n) today recs dir live none backup e h = cc h
  write_staging-Copied (suc n) today recs dir live (some s) backup e h =
      (put_day today recs s, refl, lookup_day-put_day today recs s, e)

  copy-Copied :
      (n today : ℕ) (dir : Dir R) (recs : List R) (live staging backup : Option (Dir R))
      → live ≡ some dir
      → lookup_day today dir ≡ some recs
      → ((read_live today >>= λ rs. write_staging today rs)
          (record { live = live; staging = staging; backup = backup; budget = n })).0
        ≡ done tt
      → Copied today recs dir
          ((read_live today >>= λ rs. write_staging today rs)
            (record { live = live; staging = staging; backup = backup; budget = n })).1
  unfolding read_live
  copy-Copied zero today dir recs live staging backup e here h = cc h
  copy-Copied (suc n) today dir recs live staging backup e here h =
      rw shard (write_staging-Copied n today recs dir live staging backup e (rw shard at h))
    where
      shard : shard_of today live ≡ some recs
      shard = ap (shard_of today) e ∙ here

module _ {H F : Type 0} (env : Env H F) where
  -- The live directory has the current day's shard as it was, and the backup is the whole one from before.
  abbrev pub Committed :
      ℕ → List (IndexRecord H F) → Dir (IndexRecord H F) → Tree (IndexRecord H F) → Type 0
  Committed today recs dir u =
      (new : Dir (IndexRecord H F)) × (u.live ≡ some new)
      × (lookup_day today new ≡ some recs)
      × (u.backup ≡ some dir)

  swap-Committed :
      (today : ℕ) (recs : List (IndexRecord H F)) (dir : Dir (IndexRecord H F))
      (u : Tree (IndexRecord H F))
      → Copied today recs dir u
      → (swap env true u).0 ≡ done tt
      → Committed today recs dir (swap env true u).1
  swap-Committed today recs dir u (staged, is_staged, here, live) = locked env.lock_free
    where
      locked :
          (b : Bool)
          → ((if b then back_up >> promote else throw refused) u).0 ≡ done tt
          → Committed today recs dir ((if b then back_up >> promote else throw refused) u).1
      locked false h = cc h
      locked true h =
          let r = swap-done u.budget dir u.live u.staging u.backup live h in
          (r.0, r.2.0, subst (λ d. lookup_day today d ≡ some recs) (same is_staged r.1) here, r.2.1)
        where
          same : {x y : Dir (IndexRecord H F)} → u.staging ≡ some x → u.staging ≡ some y → x ≡ y
          same p q = cc (sym p ∙ q)

  publish-Committed :
      (today : ℕ) (recs : List (IndexRecord H F)) (dir : Dir (IndexRecord H F))
      (u : Tree (IndexRecord H F))
      → u.live ≡ some dir
      → lookup_day today dir ≡ some recs
      → (publish env false true (some today) today u).0 ≡ done tt
      → Committed today recs dir (publish env false true (some today) today u).1
  publish-Committed today recs dir u live here h =
      let copy = pass_through env (some today) today u in
      let parts = continue-done copy.0 (λ (x : Unit {0}). swap env true) copy.1 tt h in
      subst (λ (r : Io (Unit {0}) × Tree (IndexRecord H F)). Committed today recs dir r.1)
        (sym parts.3)
        (swap-Committed today recs dir copy.1
          (copy-Copied u.budget today dir recs u.live u.staging u.backup live here parts.1) parts.2)

  closed-Committed :
      (today ticker_id target : ℕ) (closed : List ℕ) (recs : List (IndexRecord H F))
      (dir : Dir (IndexRecord H F)) (t : Tree (IndexRecord H F)) (report : HealReport)
      → t.live ≡ some dir
      → lookup_day today dir ≡ some recs
      → (heal_closed env today ticker_id target false true (some today) closed t).0 ≡ done report
      → Committed today recs dir
          (heal_closed env today ticker_id target false true (some today) closed t).1
  closed-Committed today ticker_id target [] recs dir t report live here h = cc h
  closed-Committed today ticker_id target (day ∷ days) recs dir t report live here h =
      let built = rebuild env ticker_id target false (day ∷ days) t in
      let kept = (rebuild-Keeps env ticker_id target false (day ∷ days)).live_kept t in
      let parts =
        continue-done built.0
          (λ (r : HealReport). publish env false true (some today) today >>= λ _. pure r) built.1
          report h in
      let published = publish env false true (some today) today built.1 in
      let ends = continue-done published.0 (λ _. pure parts.0) published.1 report parts.2 in
      subst (λ (r : Io HealReport × Tree (IndexRecord H F)). Committed today recs dir r.1)
        (sym (parts.3 ∙ ends.3))
        (publish-Committed today recs dir built.1 (kept ∙ live) here ends.1)

  later_days :
      (today lo : ℕ) (dir : Dir (IndexRecord H F)) (recs : List (IndexRecord H F))
      → today < lo
      → Increasing lo (days_of env dir)
      → lookup_day today dir ≡ some recs
      → 1 ≤ 0
  later_days today lo [] recs h up here = cc here
  later_days today lo ((d, old) ∷ dir) recs h up here =
      ground (arith, later_days today (suc d) dir recs)

  -- The current day is the first that is not closed, if it has a shard and no later day is in front of it.
  find?-today :
      (today lo : ℕ) (dir : Dir (IndexRecord H F)) (recs : List (IndexRecord H F))
      → Increasing lo (days_of env dir)
      → lookup_day today dir ≡ some recs
      → find? (λ k. leb today k) (days_of env dir) ≡ some today
  find?-today today lo [] recs up here = cc here
  find?-today today lo ((d, old) ∷ dir) recs up here =
      ground (arith, find?-today today (suc d) dir recs, later_days today (suc d) dir recs)

  -- Over shards in date order with one of the current day, a committed run that succeeds carries that shard
  -- through the swap as it was, and the backup has all that was there before.
  pub heal_ticker_shards-Committed :
      (today ticker_id : ℕ) (target_ms : ℤ) (recs : List (IndexRecord H F))
      (dir : Dir (IndexRecord H F)) (t : Tree (IndexRecord H F)) (report : HealReport)
      → t.live ≡ some dir
      → Increasing 0 (days_of env dir)
      → lookup_day today dir ≡ some recs
      → (heal_ticker_shards env today ticker_id target_ms false true t).0 ≡ done report
      → Committed today recs dir (heal_ticker_shards env today ticker_id target_ms false true t).1
  unfolding heal_ticker_shards
  heal_ticker_shards-Committed today ticker_id (negsuc n) recs dir t report live up here h = cc h
  heal_ticker_shards-Committed today ticker_id (pos zero) recs dir t report live up here h = cc h
  heal_ticker_shards-Committed today ticker_id (pos (suc n)) recs dir t report live up here h =
      subst (λ (r : Io HealReport × Tree (IndexRecord H F)). Committed today recs dir r.1)
        (sym opened)
        (closed-Committed today ticker_id (suc n) closed recs dir t report live here
          (sym (ap (λ (r : Io HealReport × Tree (IndexRecord H F)). r.0) opened) ∙ h))
    where
      closed : List ℕ
      closed = filter (λ k. ltb k today) (days_of env dir)

      opened :
          heal_dir env today ticker_id (suc n) false true t.live t
          ≡ heal_closed env today ticker_id (suc n) false true (some today) closed t
      opened =
          ap (λ o. heal_dir env today ticker_id (suc n) false true o t) live
          ∙ ap (λ o. heal_closed env today ticker_id (suc n) false true o closed t)
              (find?-today today 0 dir recs up here)
