-- ===== src/Examples.antt =====
-- The theorems at concrete inputs, and runs of the model.
mod Kernels
mod Rings
mod Queues
mod Sems
mod Timers
mod Timeouts
mod Masks
mod Waitqueues
mod Mutexes
mod Owners
mod Tasks
mod Ports
mod Libc
mod Linux
mod Systems
