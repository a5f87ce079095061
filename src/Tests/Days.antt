-- ===== src/Tests/Days.antt =====
-- `write_days` of src/bin/onchain_backfill.rs at concrete inputs: bytes and records are numbers, and a day has
-- ten milliseconds.
use series_factory.Prelude.{
  ℕ, zero, suc, ◌*◌, ◌≡◌, refl, String, true, false, none, some, inl, List, [], ◌∷◌, length,
}
use series_factory.Prelude.Int.{pos}
use series_factory.Files.{FilePath, write, World, Io, done, fault, refused, rename, remove_file}
use series_factory.Sharding.Entry.{Layout, shard_entry_for_idx}
use series_factory.Onchain.Staged.{create_new, write_all, sync_data, put, commit, drop_staged}
use series_factory.Onchain.Days.{Look, Host, Args, exists, precheck, write_days}
use series_factory.Onchain.Days.Checked.{IsHost}
use series_factory.Onchain.Days.Kept.{write_days_kept}
use series_factory.Tests.Sample.{shard_io, shard_io_laws}

abbrev day_name : ℕ → String
day_name d = elim d [
  | zero ↦ "0"
  | suc d ↦ elim d [ zero ↦ "1" | suc d ↦ elim d [ zero ↦ "2" | suc d ↦ "3" ] ]
]

abbrev layout : Layout ℕ ℕ
layout = record {
  rec_size = 1;
  from_bytes = λ bytes. bytes;
  to_bytes = λ rows. rows;
  time_ms = λ r. pos r;
  sha256_file = λ bytes. "sha";
  format_date = day_name;
}

abbrev host : Host ℕ ℕ ℕ ℕ
host = record {
  layout = layout;
  join = λ a b. b;
  starts_with = λ a b. true;
  idx_dir = λ root id. "indexes";
  shard_path = λ dir d. record { dir = dir; stem = day_name d; suffix = "idx" };
  manifest_path = λ dir. record { dir = dir; stem = "manifest"; suffix = "json" };
  day_start_ms = λ d. 10 * d;
  ms_per_day = 10;
  max_date = 1000;
  list_shards = λ dir w. (done [], w);
  create_dir_all = λ dir w. (done tt, w);
  acquire_idx_writer_lock = λ dir w. (done tt, w);
  read = shard_io.read_shard_aligned;
  write_manifest = λ p m. shard_io.write_atomic p (m ∷ []);
  manifest = λ ticker id es. length es;
  to_value = λ e. done e.n_records;
  to_string_pretty = λ j. done (j ∷ []);
  tmp_suffix = λ s ns. "tmp";
}

host_laws : IsHost host
host_laws = record {
  list_kept = λ dir q c w e. e;
  read_kept = λ p q c w e. rw (shard_io_laws.files-read p w) e;
  create_kept = λ dir q c w e. e;
  lock_kept = λ dir q c w e. e;
  manifest_kept = λ p m q c h w e. rw (shard_io_laws.write_other p q (m ∷ []) w h) e;
}

abbrev look : ℕ → Look
look n = record { is_symlink = λ p. false; exists = λ p. false; canonicalize = λ p. done p }

-- Days 1 to 3, of which day 2 has no rows.
abbrev args : Args
args = record {
  out_root = "root";
  ticker = "X";
  ticker_id = 7;
  asset = "x";
  from = 1;
  to = 3;
  force = false;
  prune_empty = true;
  today = 9;
}

abbrev shard : ℕ → FilePath
shard d = host.shard_path "indexes" d

-- Day 0 has a shard.
abbrev before : World ℕ
before = record { files = write (shard 0) (some (4 ∷ [])) (λ p. none); budget = 40 }

abbrev clock : ℕ → Io ℕ
clock i = done i

abbrev run : Args → ℕ → Io (List (ℕ × FilePath) × List ℕ) × World ℕ
run a n =
    write_days host a look clock (λ values days. done (length values))
      ((11, 11) ∷ (35, 35) ∷ (12, 12) ∷ []) (record before { budget = n })

writes_days : (run args 40).0 ≡ done ((1, shard 1) ∷ (3, shard 3) ∷ [], 2 ∷ [])
unfolding write_days precheck exists create_new write_all sync_data put commit rename remove_file
    drop_staged shard_entry_for_idx
writes_days = refl

writes_rows : (run args 40).1.files (shard 1) ≡ some (11 ∷ 12 ∷ [])
unfolding write_days precheck exists create_new write_all sync_data put commit rename remove_file
    drop_staged shard_entry_for_idx
writes_rows = refl

-- A staging file that cannot be completed is removed.
stops_early : (run args 5).1.files (shard 1) ≡ none
unfolding write_days precheck exists create_new write_all sync_data put commit rename remove_file
    drop_staged shard_entry_for_idx
stops_early = refl

refuses_existing : (run (record args { from = 0 }) 40).0 ≡ fault refused
unfolding write_days precheck exists create_new write_all sync_data put commit rename remove_file
    drop_staged shard_entry_for_idx
refuses_existing = refl

entry_of_rows :
    shard_entry_for_idx layout 1 (11 ∷ 12 ∷ 15 ∷ [])
    ≡ done (record {
      date = "1";
      first_ts = pos 11;
      last_ts = pos 15;
      n_records = 3;
      size_bytes = 3;
      sha256 = "sha";
    })
unfolding shard_entry_for_idx
entry_of_rows = refl

write_days_kept_example : (run args 17).1.files (shard 0) ≡ some (4 ∷ [])
write_days_kept_example =
    write_days_kept (shard 0) (4 ∷ []) host host_laws args look clock
      (λ values days. done (length values)) ((11, 11) ∷ (35, 35) ∷ (12, 12) ∷ [])
      (record before { budget = 17 }) (inl refl) refl
