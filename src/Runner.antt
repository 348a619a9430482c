-- ===== src/Runner.antt =====
-- internal/taskrunner/runner.go: the task queue, the choice and lease of a node, the cooldown of blocked
-- domains, retries, and what becomes of a task when its execution ends.
pub mod Queue
pub mod Retry
pub mod Domains
pub mod Nodes
pub mod Trace
pub mod Process
pub mod Settle
pub mod Begin
pub mod Sharing
pub mod Reconcile
pub mod Requeue
pub mod Recorded
pub mod Settings
mod Tests
mod Scenarios
