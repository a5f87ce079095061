-- ===== src/Sharding/Entry.antt =====
-- `shard_entry_for_idx` of src/sharding.rs: the manifest entry of a shard file, which is read in chunks of 4096
-- records. `U` is the type of bytes.
use series_factory.Prelude.{
  ℕ, zero, suc, ◌-◌, ◌*◌, ◌/◌, ◌%◌, ◌^◌, String, not, Option, none, some, List, length, head?,
  last?, take, drop, ltb, ◌==◌, if◌then◌else◌,
}
use series_factory.Prelude.Int.{ℤ, pos, negsuc, ltb_ℤ}
use series_factory.Files.{Io, done, fault, refused}

pub record ShardEntry : Type 0 where
  pub date : String
  pub first_ts : ℤ
  pub last_ts : ℤ
  pub n_records : ℕ
  pub size_bytes : ℕ
  pub sha256 : String

-- The bytes of a record: `bytemuck::cast_slice` both ways, and the decoded time.
pub record Layout (U R : Type 0) : Type 0 where
  pub rec_size : ℕ
  pub from_bytes : List U → List R
  pub to_bytes : List R → List U
  pub time_ms : R → ℤ
  pub sha256_file : List U → String
  pub format_date : ℕ → String

-- The least first and the greatest last time so far.
pub record Ends : Type 0 where
  pub first_ts : ℤ
  pub last_ts : ℤ

-- i64::MAX and i64::MIN
abbrev pub no_ends : Ends
no_ends = record { first_ts = pos (2 ^ 63 - 1); last_ts = negsuc (2 ^ 63 - 1) }

module _ {U R : Type 0} (layout : Layout U R) where
  abbrev pub earlier : Option R → Ends → Ends
  earlier none e = e
  earlier (some r) e =
      if ltb_ℤ (layout.time_ms r) e.first_ts then record e { first_ts = layout.time_ms r } else e

  abbrev pub later : Option R → Ends → Ends
  later none e = e
  later (some r) e =
      if ltb_ℤ e.last_ts (layout.time_ms r) then record e { last_ts = layout.time_ms r } else e

  abbrev pub note_chunk : List R → Ends → Ends
  note_chunk recs e = later (last? recs) (earlier (head? recs) e)

  abbrev pub chunk_size : ℕ
  chunk_size = 4096 * layout.rec_size

  -- A round for each chunk; none is longer than the bytes left.
  pub read_chunks : ℕ → List U → Ends → Io Ends
  read_chunks zero bytes e = fault refused
  read_chunks (suc fuel) bytes e =
      let buf = take chunk_size bytes in
      let e' = note_chunk (layout.from_bytes buf) e in
      let rest = read_chunks fuel (drop chunk_size bytes) e' in
      if length buf == 0
      then done e
      else if not (length buf % layout.rec_size == 0)
      then fault refused
      else if ltb (length buf) chunk_size
      then done e'
      else rest

  abbrev pub entry_of_ends : ℕ → List U → Io Ends → Io ShardEntry
  entry_of_ends date bytes (fault e) = fault e
  entry_of_ends date bytes (done e) =
      let n = if layout.rec_size == 0 then 0 else length bytes / layout.rec_size in
      done (record {
        date = layout.format_date date;
        first_ts = if n == 0 then pos 0 else e.first_ts;
        last_ts = if n == 0 then pos 0 else e.last_ts;
        n_records = n;
        size_bytes = length bytes;
        sha256 = layout.sha256_file bytes;
      })

  unfoldable pub shard_entry_for_idx : ℕ → List U → Io ShardEntry
  unfolding read_chunks
  shard_entry_for_idx date bytes =
      entry_of_ends date bytes (read_chunks (suc (length bytes)) bytes no_ends)
