-- ===== src/Queue.antt =====
-- A3/queue.c: the linked queue that the thread library keeps its threads in.
pub mod Memory
pub mod Ops
pub mod Chain
pub mod Fifo
pub mod History
pub mod Walk
pub mod Remove
pub mod Destroy
mod Tests
