-- ===== src/Timesync.antt =====
-- pkg/timesync: the agent's clock. Times and durations are nanoseconds, int64 durations wrap and
-- differences of times stop at the ends of the range. Methods that hold the lock are one step; the
-- goroutine of `Start` is taken tick by tick (`on_tick`), its channels and contexts are left out.
pub mod Duration
pub mod Platform
pub mod Ntp
pub mod Restart
mod Tests
