-- ===== src/Shm/Transfer.antt =====
-- What one process transmits and another reads: ShmTransmitter, the segment that the two map, the
-- notifier and ShmDispatcher of IntelligentDriving/my_cyber/transport.
pub mod Contents
pub mod Announces
pub mod Sends
pub mod Reads
pub mod Arrives
