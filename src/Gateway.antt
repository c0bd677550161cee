-- ===== src/Gateway.antt =====
-- services/gateway: the HTTP service in front of the others, which turns JSON requests into calls of
-- their gRPC servers and forwards four routes to the REST API of services/resolution.
pub mod Http
pub mod Auth
pub mod Handlers
pub mod Proxy
pub mod Forwarded
pub mod Settled
pub mod Ingested
pub mod Slices
pub mod Listed
pub mod Routes
pub mod Dial
pub mod Passed
mod Examples
