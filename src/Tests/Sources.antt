-- ===== src/Tests/Sources.antt =====
-- A download at concrete inputs: a short transfer, an error, and a whole one.
use series_factory.Prelude.{ℕ, zero, suc, ◌≡◌, refl, Bool, String, some, ◌==◌}
use series_factory.Prelude.Outcome.{Outcome, ok, err}
use series_factory.Sources.Download.{DownloadedArchive, is_truncated, download_to_file_retry}
use series_factory.Sources.Download.Retry.{Settles, download_to_file_retry-Settled}

abbrev archive : ℕ → DownloadedArchive String
archive n = record { path = "a.zip"; bytes_got = n; content_length = some 100 }

abbrev network : ℕ → Outcome ℕ (DownloadedArchive String)
network zero = ok (archive 60)
network (suc zero) = err 500
network (suc (suc i)) = ok (archive 100)

abbrev missing : ℕ → Bool
missing status = status == 404

download_to_file_retry-Settled_example :
    (i : ℕ) × Settles missing network 0 4 i (download_to_file_retry missing network 4)
download_to_file_retry-Settled_example = download_to_file_retry-Settled missing network 3

third : download_to_file_retry missing network 4 ≡ some (ok (archive 100))
unfolding download_to_file_retry is_truncated
third = refl
