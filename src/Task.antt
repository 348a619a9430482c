-- ===== src/Task.antt =====
-- internal/task/service.go: tasks and the in-memory task service.
-- A method takes the clock's reading `now` where the source calls time.Now, and returns the new
-- service beside its result; an error leaves the service as it was. A `*time.Time` is an option.
pub mod Types
pub mod Service
pub mod Outputs
pub mod Validity
pub mod Lifecycle
pub mod Attempts
pub mod Listing
mod Tests
