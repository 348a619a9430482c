-- ===== src/Agent.antt =====
-- The node agent of cmd/node-agent.
pub mod Egress
pub mod Listing
pub mod Passing
pub mod Policy
pub mod Blocker
pub mod Actions
pub mod Values
pub mod Plans
pub mod Rounds
pub mod Loop
mod Tests
