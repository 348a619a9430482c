-- ===== src/Idempotency.antt =====
-- internal/idempotency (store.go, inmemory.go) and internal/api/idempotency.go: stored responses, the
-- claim that a request takes while it runs, and the handler that replays.
pub mod Store
pub mod Claims
pub mod Response
pub mod Handler
pub mod Replay
mod Tests
