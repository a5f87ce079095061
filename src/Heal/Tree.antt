-- ===== src/Heal/Tree.antt =====
-- The directories that src/idx_heal.rs works on: that of the ticker, its staging twin and its backup, whose
-- name has the instant and is new. A directory is the list of its shards in date order, as `list_shards`
-- gives it; a date is a day number. Each call may fail, and a run may be killed, at any point: `budget`
-- counts the calls that succeed before that.
use series_factory.Prelude.{
  ℕ, zero, suc, Option, none, some, List, [], ◌∷◌, ltb, ◌==◌, if◌then◌else◌,
}
use series_factory.Files.{Io, done, fault, Fault, failed, not_found}

abbrev pub Dir : Type 0 → Type 0
Dir R = List (ℕ × List R)

pub record Tree (R : Type 0) : Type 0 where
  pub live : Option (Dir R)
  pub staging : Option (Dir R)
  pub backup : Option (Dir R)
  pub budget : ℕ

abbrev pub Action : Type 0 → Type 0 → Type 0
Action R A = Tree R → Io A × Tree R

abbrev pub continue : {R A B : Type 0} → Io A → (A → Action R B) → Action R B
continue (done a) f t = f a t
continue (fault e) f t = (fault e, t)

infixl 10 ◌>>=◌ ◌>>◌
abbrev pub ◌>>=◌ : {R A B : Type 0} → Action R A → (A → Action R B) → Action R B
◌>>=◌ m f t = let (r, t') = m t in continue r f t'

abbrev pub ◌>>◌ : {R B : Type 0} → Action R (Unit {0}) → Action R B → Action R B
m >> n = m >>= λ _. n

abbrev pub pure : {R A : Type 0} → A → Action R A
pure a t = (done a, t)

abbrev pub throw : {R A : Type 0} → Fault → Action R A
throw e t = (fault e, t)

module _ {R : Type 0} where
  abbrev pub lookup_day : ℕ → Dir R → Option (List R)
  lookup_day day [] = none
  lookup_day day ((d, recs) ∷ dir) =
      let rest = lookup_day day dir in if d == day then some recs else rest

  -- A shard that is written takes its place in date order.
  abbrev pub put_day : ℕ → List R → Dir R → Dir R
  put_day day recs [] = (day, recs) ∷ []
  put_day day recs ((d, old) ∷ dir) =
      let later = (d, old) ∷ put_day day recs dir in
      if ltb day d
      then (day, recs) ∷ (d, old) ∷ dir
      else if day == d
      then (day, recs) ∷ dir
      else later

  abbrev pub shard_of : ℕ → Option (Dir R) → Option (List R)
  shard_of day none = none
  shard_of day (some dir) = lookup_day day dir

  -- A call, made if the budget allows it.
  abbrev pub spend : {A : Type 0} → ℕ → Action R A → Action R A
  spend zero act t = (fault failed, t)
  spend (suc n) act t = act (record t { budget = n })

  abbrev pub call : {A : Type 0} → Action R A → Action R A
  call act t = spend t.budget act t

  abbrev pub found : {A : Type 0} → Option A → Action R A
  found none t = (fault not_found, t)
  found (some a) t = (done a, t)

  -- read_shard_aligned of a shard of the ticker, or of the staging directory
  unfoldable pub read_live : ℕ → Action R (List R)
  read_live day = call (λ t. found (shard_of day t.live) t)

  unfoldable pub read_staging : ℕ → Action R (List R)
  read_staging day = call (λ t. found (shard_of day t.staging) t)

  abbrev pub stage : ℕ → List R → Option (Dir R) → Action R (Unit {0})
  stage day recs none t = (fault not_found, t)
  stage day recs (some dir) t = (done tt, record t { staging = some (put_day day recs dir) })

  -- write_shard_atomic in the staging directory
  unfoldable pub write_staging : ℕ → List R → Action R (Unit {0})
  write_staging day recs = call (λ t. stage day recs t.staging t)

  unfoldable pub remove_staging : Action R (Unit {0})
  remove_staging = call (λ t. (done tt, record t { staging = none }))

  abbrev pub or_empty : Option (Dir R) → Dir R
  or_empty none = []
  or_empty (some dir) = dir

  -- fs::create_dir_all
  unfoldable pub create_staging : Action R (Unit {0})
  create_staging = call (λ t. (done tt, record t { staging = some (or_empty t.staging) }))

  abbrev pub backed_up : Option (Dir R) → Action R (Unit {0})
  backed_up none t = (fault not_found, t)
  backed_up (some dir) t = (done tt, record t { live = none; backup = some dir })

  -- fs::rename(&dir, &bak)
  unfoldable pub back_up : Action R (Unit {0})
  back_up = call (λ t. backed_up t.live t)

  abbrev pub promoted : Option (Dir R) → Action R (Unit {0})
  promoted none t = (fault not_found, t)
  promoted (some dir) t = (done tt, record t { live = some dir; staging = none })

  -- fs::rename(&staging, &dir), onto a name that is free
  unfoldable pub promote : Action R (Unit {0})
  promote = call (λ t. promoted t.staging t)
