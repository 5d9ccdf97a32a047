-- ===== src/System.antt =====
-- The kernel as a system of steps: calls of the running task, interrupts, ticks, and tasks that go on.
pub mod Keeps
pub mod Steady
pub mod Owners
pub mod Tick
pub mod Timeout
pub mod Destroy
pub mod Resume
pub mod Step
pub mod Calls
pub mod Reach
