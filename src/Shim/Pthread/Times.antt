-- ===== src/Shim/Pthread/Times.antt =====
-- The times of shim/pthread/core.c.
use mac_ify.Prelude.{ℕ, ◌+◌, ◌*◌, ◌<◌, ◌≡◌, arith}
use mac_ify.Shim.Pthread.{Timespec, abstime}

abbrev pub nanoseconds : Timespec → ℕ
nanoseconds t = t.tv_sec * 1000000000 + t.tv_nsec

-- The absolute time is the sum, and a proper time if both are.
pub abstime_lem :
    (now reltime : Timespec)
    → now.tv_nsec < 1000000000
    → reltime.tv_nsec < 1000000000
    → (nanoseconds (abstime now reltime) ≡ nanoseconds now + nanoseconds reltime)
      × ((abstime now reltime).tv_nsec < 1000000000)
unfolding abstime
abstime_lem now reltime proper proper' = ground arith
