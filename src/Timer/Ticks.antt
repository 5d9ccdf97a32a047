-- ===== src/Timer/Ticks.antt =====
-- `os_ticks_diff` across an overflow of the counter.
use rados.Base.{ℕ, ◌^◌, ◌<◌, ◌≡◌, arith}
use rados.Timer.{add_ticks, os_ticks_diff}

-- For a 16 bit start and less than 2^16 elapsed ticks, `os_ticks_diff` from the start to the
-- counter after them gives the elapsed ticks, also where the counter overflowed.
pub os_ticks_diff-add_ticks :
    (start elapsed : ℕ)
    → start < 2 ^ 16
    → elapsed < 2 ^ 16
    → os_ticks_diff start (add_ticks start elapsed) ≡ elapsed
unfolding os_ticks_diff
os_ticks_diff-add_ticks start elapsed hs he = ground arith
