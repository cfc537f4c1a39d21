-- ===== src/Tests.antt =====
-- Concrete runs of the parts, one file for each.
pub mod Events
pub mod Breakers
pub mod Retries
pub mod Caches
pub mod Pipelines
pub mod Workers
pub mod Consumers
pub mod Transformed
pub mod Conditions
pub mod Aggregates
pub mod Clients
pub mod Redis
pub mod Enriched
pub mod Postgres
pub mod Converted
pub mod Masked
