-- ===== src/Base.antt =====
-- The lock-free containers of IntelligentDriving/my_cyber/base.
pub mod HashMap
pub mod BoundedQueue
pub mod RwLock
pub mod Signal
