-- ===== src/Process.antt =====
-- Processes: core/process, and the kernel's synchronisation (lib/semaphore.c).
pub mod Task
pub mod Schedule
pub mod Signal
pub mod Sleep
pub mod Semaphore
