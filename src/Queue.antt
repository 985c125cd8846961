-- ===== src/Queue.antt =====
-- pkg/queue: the queues of placement requests and the readers over them.
pub mod Prioritized
pub mod Heap
pub mod PlacementRequest
pub mod Store
pub mod Config
pub mod Float
pub mod RoundRobin
pub mod Uniform
pub mod Access
pub mod Iterator
mod Tests
