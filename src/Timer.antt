-- ===== src/Timer.antt =====
-- The timers under toolkit/source/timer.
pub mod Node
pub mod Wheel
pub mod Manager
