-- ===== src/Resolution.antt =====
-- The Resolution Service (services/resolution): its tables, queries, strategies, retry worker, gRPC
-- server and REST handlers.
pub mod Tables
pub mod Queries
pub mod Strategy
pub mod Manual
pub mod Api
pub mod Worker
pub mod Service
pub mod Examples
