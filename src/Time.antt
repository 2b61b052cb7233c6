-- ===== src/Time.antt =====
-- Timers (core/time/timer.c), the clock interrupt (arch/i386/i8254.c) and calendar time (core/time/time.c).
pub mod Timer
pub mod Clock
pub mod Calendar
