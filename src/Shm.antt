-- ===== src/Shm.antt =====
-- my_cyber/transport/shm: messages through shared memory.
pub mod Conf
pub mod Block
pub mod Memory
pub mod Segment
pub mod Notifier
pub mod Buffers
pub mod Transmitter
pub mod Dispatcher
pub mod Transfer
