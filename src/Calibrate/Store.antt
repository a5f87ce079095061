-- ===== src/Calibrate/Store.antt =====
-- `ParamsStore` of src/bin/nxr_calibrate.rs: outcomes are queued, and written with the next update. `W` is
-- the type of parsed files, `S` that of outcomes. Locks are not modelled: the calls of one process come one
-- behind the other, and no other process changes the file between them.
pub mod Queued
use series_factory.Prelude.{
  ℕ, zero, suc, ◌+◌, ◌-◌, ◌≡◌, String, Bool, true, false, Option, none, some, List, [], ◌∷◌, ◌++◌,
  is_empty, ltb, if◌then◌else◌,
}
use text.Mathlib.Text.{◌==◌ as str_eq}

pub record ParamsStore (S : Type 0) : Type 0 where
  pub file : Option String
  pub pending : List S
  pub last_write : ℕ
  pub flush_every : ℕ

-- What the code takes from elsewhere: `serde_json`, and the effect of one outcome.
pub record Format (S W : Type 0) : Type 0 where
  pub parse : String → Option W
  pub print : W → String
  pub fresh : W
  pub apply : S → W → W

-- How an update fares: whether the lock is taken, and whether the file can be written.
pub record Luck : Type 0 where
  pub now : ℕ
  pub locked : Bool
  pub writable : Bool

module _ {S W : Type 0} (fmt : Format S W) where
  abbrev pub read_raw : Option String → Option W
  read_raw none = some fmt.fresh
  read_raw (some raw) = fmt.parse raw

  abbrev pub apply_queue : List S → W → W
  apply_queue [] w = w
  apply_queue (s ∷ queue) w = apply_queue queue (fmt.apply s w)

  abbrev pub same_text : Option String → String → Bool
  same_text none out = false
  same_text (some raw) out = str_eq raw out

  -- The write, unless the bytes are the same; a failing one leaves the file.
  abbrev pub written : Luck → String → ParamsStore S → Bool × ParamsStore S
  written luck out st =
      let cleared = record st { pending = []; last_write = luck.now } in
      if same_text st.file out
      then (true, cleared)
      else if luck.writable
      then (true, record cleared { file = some out })
      else (false, st)

  abbrev pub updated : Luck → (W → W) → Option W → ParamsStore S → Bool × ParamsStore S
  updated luck f none st = (false, st)
  updated luck f (some w) st = written luck (fmt.print (f (apply_queue st.pending w))) st

  -- The first component tells whether the call succeeds.
  unfoldable pub update : Luck → (W → W) → ParamsStore S → Bool × ParamsStore S
  update luck f st = if luck.locked then updated luck f (read_raw st.file) st else (false, st)

  unfoldable pub stage : Luck → S → ParamsStore S → Bool × ParamsStore S
  unfolding update
  stage luck s st =
      let queued = record st { pending = st.pending ++ s ∷ [] } in
      if ltb (luck.now - st.last_write) st.flush_every
      then (true, queued)
      else update luck (λ w. w) (record queued { last_write = luck.now })

  -- The drop: what is queued is written, if it can be.
  unfoldable pub dropped : Luck → ParamsStore S → ParamsStore S
  unfolding update
  dropped luck st = if is_empty st.pending then st else (update luck (λ w. w) st).1

  -- The calls of a run.
  pub data Call : Type 0 where
    updating : (W → W) → Call
    staging : S → Call

  unfoldable pub run : List (Luck × Call) → ParamsStore S → ParamsStore S
  unfolding stage update
  run [] st = st
  run ((luck, updating f) ∷ calls) st = run calls (update luck f st).1
  run ((luck, staging s) ∷ calls) st = run calls (stage luck s st).1
