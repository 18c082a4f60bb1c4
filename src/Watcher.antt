-- ===== src/Watcher.antt =====
-- Package watcher (internal/watcher/watcher.go): files that appear in a watch folder wait for two
-- minutes without a change, and then become jobs.
pub mod Files
pub mod Stable
pub mod Timers
pub mod State
pub mod Events
pub mod Process
pub mod Reach
mod Tests
