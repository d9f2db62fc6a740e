-- ===== src/Timer.antt =====
-- The timing wheel: the folder timer/.
pub mod Timeval
pub mod Wheel
pub mod Lists
pub mod DelayQueue
pub mod ThreadPool
