-- ===== src/Queue.antt =====
-- Package queue (internal/queue): the schedule, the disk guard, the manager and its workers.
pub mod Schedule
pub mod Disk
pub mod Manager
pub mod Worker
