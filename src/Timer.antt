-- ===== src/Timer.antt =====
-- include/asrt/timer: the timer queue of the executor, and conversions of time values.
pub mod Queue
pub mod Schedule
pub mod Expiry
pub mod Conversion
pub mod Tests
