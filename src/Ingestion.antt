-- ===== src/Ingestion.antt =====
-- services/ingestion: the service that validates, normalizes and stores the records.
pub mod Pipeline
pub mod Stores
pub mod Server
pub mod Adapters
pub mod RateLimit
pub mod Lifecycle
pub mod Delivered
pub mod Examples
