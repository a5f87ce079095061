-- ===== src/Backfill/Gate.antt =====
-- `HeavySemaphore` of src/bin/backfill_all.rs as the steps of its threads. The mutex makes the code between
-- two waits one step. `sleeping` threads are in `cv.wait`, and `woken` ones are to look at the permits again.
pub mod Reached
use series_factory.Prelude.{ℕ, zero, suc, ◌-◌, ◌≡◌, true, max, ltb, ◌==◌, if◌then◌else◌}

pub record HeavySemaphore : Type 0 where
  pub permits : ℕ
  pub holders : ℕ
  pub sleeping : ℕ
  pub woken : ℕ

unfoldable pub new : ℕ → HeavySemaphore
new permits = record { permits = max permits 1; holders = 0; sleeping = 0; woken = 0 }

-- `*p == 0` sends the thread to sleep, else it takes a permit.
unfoldable pub acquire : HeavySemaphore → HeavySemaphore
acquire s =
    if s.permits == 0
    then record s { sleeping = suc s.sleeping }
    else record s { permits = s.permits - 1; holders = suc s.holders }

-- A thread that has been woken looks again.
unfoldable pub look_again : HeavySemaphore → HeavySemaphore
unfolding acquire
look_again s = acquire (record s { woken = s.woken - 1 })

-- `notify_one`
abbrev pub notify_one : HeavySemaphore → HeavySemaphore
notify_one s =
    if s.sleeping == 0 then s else record s { sleeping = s.sleeping - 1; woken = suc s.woken }

-- The drop of a permit.
unfoldable pub release : HeavySemaphore → HeavySemaphore
release s = notify_one (record s { permits = suc s.permits; holders = s.holders - 1 })

-- The steps. A condition variable may wake a thread for no reason.
pub data Step (s t : HeavySemaphore) : Type 0 where
  enters : t ≡ acquire s → Step s t
  looks : ltb 0 s.woken ≡ true → t ≡ look_again s → Step s t
  leaves : ltb 0 s.holders ≡ true → t ≡ release s → Step s t
  stirs :
      ltb 0 s.sleeping ≡ true
      → t ≡ record s { sleeping = s.sleeping - 1; woken = suc s.woken }
      → Step s t

pub data Reach (n : ℕ) : HeavySemaphore → Type 0 where
  start : {s : HeavySemaphore} → s ≡ new n → Reach n s
  later : {r s : HeavySemaphore} → Reach n r → Step r s → Reach n s
