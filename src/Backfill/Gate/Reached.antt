-- ===== src/Backfill/Gate/Reached.antt =====
-- What holds of `HeavySemaphore` of src/bin/backfill_all.rs however its threads interleave.
use series_factory.Prelude.{ℕ, ◌+◌, ◌≤◌, ◌<◌, ◌≡◌, sym, subst, max, arith}
use series_factory.Backfill.Gate.{
  HeavySemaphore, new, acquire, look_again, release, Step, enters, looks, leaves, stirs, Reach,
  start, later,
}

-- Every permit is free or held, and no permit is free beside a sleeper unless a thread is woken for it.
pub record Sound (n : ℕ) (s : HeavySemaphore) : Type 0 where
  pub counted : s.permits + s.holders ≡ max n 1
  pub no_stall : 0 < s.sleeping → s.permits ≤ s.woken

Step-Sound : (n : ℕ) {s t : HeavySemaphore} → Step s t → Sound n s → Sound n t
unfolding acquire look_again release
Step-Sound n {s} (enters e) h = subst (Sound n) (sym e) (ground arith)
Step-Sound n {s} (looks g e) h = subst (Sound n) (sym e) (ground arith)
Step-Sound n {s} (leaves g e) h = subst (Sound n) (sym e) (ground arith)
Step-Sound n {s} (stirs g e) h = subst (Sound n) (sym e) (ground arith)

-- Whatever the threads do, every permit is free or held; and while a thread sleeps, at least as many are woken
-- as there are free permits.
pub Reach-Sound : (n : ℕ) (s : HeavySemaphore) → Reach n s → Sound n s
unfolding new
Reach-Sound n s (start e) = subst (Sound n) (sym e) (ground arith)
Reach-Sound n s (later before step) = Step-Sound n step (Reach-Sound n _ before)
