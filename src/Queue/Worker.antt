-- ===== src/Queue/Worker.antt =====
-- internal/queue/worker.go: a worker takes a job, copies its file to the temporary directory,
-- encodes it, checks the result and puts it in its place.
pub mod State
pub mod Copy
pub mod Paths
pub mod Stages
pub mod Encode
pub mod Next
mod Film
mod Tests
