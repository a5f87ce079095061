-- ===== src/Onchain/Staged/Keeping.antt =====
-- `Staged` of src/bin/onchain_backfill.rs and a file that was there before: a rule for each way to build a run.
use text.Mathlib.TextEquality.{eq_iff}
use series_factory.Prelude.{
  ℕ, zero, suc, ◌≡◌, refl, ap, ◌∙◌, String, Bool, true, false, not, Option, none, some, inl, inr,
  List, [], ◌∷◌, filter, All, All-append, Bool-cases, arith, if◌then◌else◌,
}
use series_factory.Files.{
  FilePath, same_path, Files, World, Io, done, fault, Action, rename, remove_file,
}
use series_factory.Files.Laws.{rename_other, remove_file_other, write_ne}
use series_factory.Onchain.Staged.{
  Staged, Run, then_run, ◌>>=◌, pure, lift, of_io, remember, create_new, write_all, sync_data, put,
  commit, created, drop_staged, dropping,
}

same_path-eq : (p q : FilePath) → same_path p q ≡ true → p ≡ q
same_path-eq p q h =
    ground (arith, eq_iff p.suffix q.suffix, eq_iff p.stem q.stem, eq_iff p.dir q.dir)

abbrev pub Any : {A : Type 0} → A → Type 0
Any a = Unit {0}

abbrev pub Returns : {A : Type 0} → (A → Type 0) → Io A → Type 0
Returns Q (done a) = Q a
Returns Q (fault e) = Unit {0}

pub Returns-Any : {A : Type 0} (r : Io A) → Returns Any r
Returns-Any (done a) = tt
Returns-Any (fault e) = tt

abbrev pub Apart : FilePath → FilePath → Type 0
Apart q p = same_path p q ≡ false

forget-Apart :
    (q tmp : FilePath) (st : Staged)
    → All (Apart q) st
    → All (Apart q) (filter (λ p. not (same_path p tmp)) st)
forget-Apart q tmp [] h = tt
forget-Apart q tmp (p ∷ st) h = ground (arith, forget-Apart q tmp st h.1)

module _ {U : Type 0} (q : FilePath) (c : List U) where
  pub absent-Apart :
      (p : FilePath) (files : Files U) → files p ≡ none → files q ≡ some c → Apart q p
  absent-Apart p files h k = elim (Bool-cases (same_path p q)) [
    | inl e ↦ cc (ap files (same_path-eq p q e))
    | inr e ↦ e
  ]

  pub record Post {A : Type 0} (Q : A → Type 0) (r : Io A) (st : Staged) (w : World U)
      : Type 0 where
    pub held : w.files q ≡ some c
    pub apart : All (Apart q) st
    pub result : Returns Q r

  -- The file stays, no staged file is it, and what the action returns satisfies `Q`.
  pub record Keeping {A : Type 0} (m : Run U A) (Q : A → Type 0) : Type 0 where
    pub run :
        (st : Staged) (w : World U)
        → w.files q ≡ some c
        → All (Apart q) st
        → Post Q (m st w).0 (m st w).1 (m st w).2

  -- A call that leaves the file alone.
  abbrev pub Leaves : {A : Type 0} → Action U A → Type 0
  Leaves m = (w : World U) → w.files q ≡ some c → (m w).1.files q ≡ some c

module _ {U : Type 0} {q : FilePath} {c : List U} where
  then-Post :
      {A B : Type 0} {P : A → Type 0} {Q : B → Type 0} (r : Io A) (f : A → Run U B) (st : Staged)
      (w : World U)
      → Post q c P r st w
      → ((a : A) → P a → Keeping q c (f a) Q)
      → Post q c Q (then_run r f st w).0 (then_run r f st w).1 (then_run r f st w).2
  then-Post (done a) f st w h k = (k a h.result).run st w h.held h.apart
  then-Post (fault e) f st w h k = record { held = h.held; apart = h.apart; result = tt }

  pub bind-Keeping :
      {A B : Type 0} {P : A → Type 0} {Q : B → Type 0} {m : Run U A} {f : A → Run U B}
      → Keeping q c m P
      → ((a : A) → P a → Keeping q c (f a) Q)
      → Keeping q c (m >>= f) Q
  bind-Keeping {m = m} {f = f} h k = record {
    run = λ st w e a. then-Post (m st w).0 f (m st w).1 (m st w).2 (h.run st w e a) k;
  }

  pub pure-Keeping : {A : Type 0} {Q : A → Type 0} (a : A) → Q a → Keeping q c (pure a) Q
  pure-Keeping a h = record { run = λ st w e s. record { held = e; apart = s; result = h } }

  pub weaken-Keeping :
      {A : Type 0} {Q : A → Type 0} {m : Run U A} → Keeping q c m Q → Keeping q c m Any
  weaken-Keeping {m = m} h = record {
    run = λ st w e a.
        let p = h.run st w e a in
        record { held = p.held; apart = p.apart; result = Returns-Any (m st w).0 };
  }

  pub if-Keeping :
      {A : Type 0} {Q : A → Type 0} (b : Bool) {m n : Run U A}
      → Keeping q c m Q
      → Keeping q c n Q
      → Keeping q c (if b then m else n) Q
  if-Keeping true h k = h
  if-Keeping false h k = k

  pub lift-Keeping : {A : Type 0} (m : Action U A) → Leaves q c m → Keeping q c (lift m) Any
  lift-Keeping m h = record {
    run = λ st w e a. record { held = h w e; apart = a; result = Returns-Any (m w).0 };
  }

  pub of_io-Keeping : {A : Type 0} (r : Io A) → Keeping q c (of_io r) Any
  of_io-Keeping r = record {
    run = λ st w e a. record { held = e; apart = a; result = Returns-Any r };
  }

  created_lem :
      (p : FilePath) (o : Option (List U)) (files : Files U)
      → files p ≡ o
      → files q ≡ some c
      → ((created p o files).1 q ≡ some c) × Returns (λ _. Apart q p) (created p o files).0
  created_lem p none files e h =
      let a = absent-Apart q c p files e h in (write_ne p q (some []) files a ∙ h, a)
  created_lem p (some content) files e h = (h, tt)

  create_new-Keeping : (p : FilePath) → Keeping q c (lift (create_new p)) (λ _. Apart q p)
  unfolding create_new
  create_new-Keeping p = record { run = λ st w e a. spent st w.budget w.files e a }
    where
      spent :
          (st : Staged) (n : ℕ) (files : Files U)
          → files q ≡ some c
          → All (Apart q) st
          → let r = create_new p (record { files = files; budget = n }) in
            Post q c (λ _. Apart q p) r.0 st r.1
      spent st zero files e a = record { held = e; apart = a; result = tt }
      spent st (suc n) files e a =
          let l = created_lem p (files p) files refl e in
          record { held = l.0; apart = a; result = l.1 }

  remember-Keeping : (tmp : FilePath) → Apart q tmp → Keeping q c (remember tmp) Any
  remember-Keeping tmp h = record {
    run = λ st w e a. record {
      held = e;
      apart = All-append (Apart q) st (tmp ∷ []) a (h, tt);
      result = tt;
    };
  }

  write_all-Leaves : (p : FilePath) (bytes : List U) → Apart q p → Leaves q c (write_all p bytes)
  unfolding write_all
  write_all-Leaves p bytes h w e = ground (arith, write_ne p q (some bytes) w.files h)

  sync_data-Leaves : Leaves q c sync_data
  unfolding sync_data
  sync_data-Leaves w e = ground arith

  pub put-Keeping :
      (path : FilePath) (suffix : Io String) (bytes : List U)
      → Keeping q c (put path suffix bytes) (Apart q)
  unfolding put
  put-Keeping path suffix bytes = bind-Keeping (of_io-Keeping suffix) (λ s _.
      let tmp = record path { suffix = s } in
      bind-Keeping (create_new-Keeping tmp) (λ _ h. bind-Keeping (remember-Keeping tmp h) (λ _ _.
        bind-Keeping (lift-Keeping (write_all tmp bytes) (write_all-Leaves tmp bytes h)) (λ _ _.
          bind-Keeping (lift-Keeping sync_data sync_data-Leaves) (λ _ _. pure-Keeping tmp h)))))

  pub commit-Keeping :
      (tmp to : FilePath) → Apart q tmp → Apart q to → Keeping q c (commit tmp to) Any
  unfolding commit
  commit-Keeping tmp to h k =
      bind-Keeping (lift-Keeping (rename tmp to) (λ w e. rename_other tmp to q w h k ∙ e)) (λ _ _.
        record {
          run = λ st w e a. record { held = e; apart = forget-Apart q tmp st a; result = tt };
        })

  drop_staged-kept :
      (st : Staged) (w : World U)
      → All (Apart q) st
      → w.files q ≡ some c
      → (drop_staged st w).files q ≡ some c
  unfolding drop_staged
  drop_staged-kept [] w a e = e
  drop_staged-kept (p ∷ st) w a e =
      drop_staged-kept st (remove_file p w).1 a.1 (remove_file_other p q w a.0 ∙ e)

  pub dropping-kept :
      {A : Type 0} {Q : A → Type 0} (m : Run U A) (w : World U)
      → Keeping q c m Q
      → w.files q ≡ some c
      → (dropping m w).1.files q ≡ some c
  dropping-kept m w h e =
      let p = h.run [] w e tt in drop_staged-kept (m [] w).1 (m [] w).2 p.apart p.held

  pub imply-Keeping :
      {A : Type 0} {P Q : A → Type 0} {m : Run U A}
      → Keeping q c m P
      → ((a : A) → P a → Q a)
      → Keeping q c m Q
  imply-Keeping {m = m} h k = record {
    run = λ st w e a.
        let p = h.run st w e a in
        record { held = p.held; apart = p.apart; result = returned (m st w).0 p.result k };
  }
    where
      returned :
          {A : Type 0} {P Q : A → Type 0} (r : Io A)
          → Returns P r
          → ((a : A) → P a → Q a)
          → Returns Q r
      returned (done a) h k = k a h
      returned (fault e) h k = tt
