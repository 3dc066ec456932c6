-- ===== src/Threads.antt =====
-- A3/thread.c and A3/thread_table.c: cooperative threads with join, mutexes and conditions.
pub mod State
pub mod Table
pub mod Yield
pub mod Join
pub mod Mutex
pub mod Cond
pub mod Lifetime
pub mod Order
pub mod Chain
mod Walkers
pub mod Deadlock
pub mod Refused
pub mod Handoff
pub mod Holds
pub mod Sound
pub mod Kept
pub mod Ended
pub mod History
mod Tests
