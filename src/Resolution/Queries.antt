-- ===== src/Resolution/Queries.antt =====
-- services/resolution/internal/db/db.go: the queries, one function to each.
pub mod States
pub mod Audit
pub mod Retries
pub mod Sources
pub mod Mismatches
pub mod Decided
