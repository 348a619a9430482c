-- ===== src/Api.antt =====
-- The HTTP service of internal/api.
pub mod Limiter
pub mod Buckets
pub mod Quota
pub mod Security
pub mod Routes
pub mod Guarding
pub mod Tasks
pub mod Handlers
pub mod Cancels
pub mod Listings
pub mod Chains
pub mod Nodes
pub mod Recycling
pub mod Stats
pub mod Metrics
mod Tests
pub mod Counting
pub mod Rates
pub mod Creation
pub mod Settling
pub mod Outcomes
