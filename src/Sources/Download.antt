-- ===== src/Sources/Download.antt =====
-- `is_truncated` and `download_to_file_retry` of src/sources/common.rs. `P` is the type of paths and `E` of
-- errors. The waits between attempts, the log and the temporary file of an attempt, which goes with it,
-- are not modelled.
pub mod Retry
use series_factory.Prelude.{ℕ, zero, suc, Bool, true, false, Option, none, some, ltb, if◌then◌else◌}
use series_factory.Prelude.Outcome.{Outcome, ok, err}

pub record DownloadedArchive (P : Type 0) : Type 0 where
  pub path : P
  pub bytes_got : ℕ
  pub content_length : Option ℕ

pub data RetryError (E : Type 0) : Type 0 where
  transfer : E → RetryError E
  truncated : ℕ → ℕ → RetryError E

unfoldable pub is_truncated : ℕ → Option ℕ → Bool
is_truncated bytes_got none = false
is_truncated bytes_got (some expected) = ltb bytes_got expected

-- content_length.unwrap_or(0)
abbrev pub expected_bytes : Option ℕ → ℕ
expected_bytes none = 0
expected_bytes (some n) = n

-- Err(last_err.unwrap()): without an error there it panics, which is `none`.
abbrev pub unwrapped : {A E : Type 0} → Option E → Option (Outcome E A)
unwrapped none = none
unwrapped (some e) = some (err e)

-- `download i` is what the attempt `i` of `download_to_file` gives; `missing` is the test for a message
-- that ends in `HTTP 404` or `HTTP 403`.
module _ {P E : Type 0} (missing : E → Bool) (download : ℕ → Outcome E (DownloadedArchive P)) where
  abbrev pub Answer : Type 0
  Answer = Option (Outcome (RetryError E) (DownloadedArchive P))

  abbrev pub truncation : DownloadedArchive P → RetryError E
  truncation dl = truncated dl.bytes_got (expected_bytes dl.content_length)

  -- One round; `next` is the rest of the loop with a new `last_err`.
  abbrev pub attempt : (Option (RetryError E) → Answer) → Outcome E (DownloadedArchive P) → Answer
  attempt next (ok dl) =
      if is_truncated dl.bytes_got dl.content_length
      then next (some (truncation dl))
      else some (ok dl)
  attempt next (err e) = if missing e then some (err (transfer e)) else next (some (transfer e))

  -- `left` rounds from the attempt `i`.
  abbrev pub attempts : ℕ → ℕ → Option (RetryError E) → Answer
  attempts zero i last_err = unwrapped last_err
  attempts (suc left) i last_err = attempt (attempts left (suc i)) (download i)

  unfoldable pub download_to_file_retry : ℕ → Answer
  download_to_file_retry max_attempts = attempts max_attempts 0 none
