-- ===== src/Tests.antt =====
-- The theorems at concrete inputs, and runs of the definitions.
mod Base
mod RwLock
mod Data
mod Timer
mod Timers
mod Topology
mod Shm
mod Queues
mod Scheduler
mod Graph
mod Warehouse
mod Segment
mod Wire
mod Notifier
mod Dispatch
mod Hybrid
mod Memory
mod Transfer
