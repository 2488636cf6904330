-- ===== src/Timer.antt =====
-- my_cyber/timer: timers, and the two-level timing wheel that they run on.
pub mod Wheel
pub mod Periodic
