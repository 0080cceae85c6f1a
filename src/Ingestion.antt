-- ===== src/Ingestion.antt =====
-- backend/app/ingestion: the worker framework, the HTTP client and its limiter.
pub mod Backoff
pub mod Registry
pub mod Worker
pub mod Limiter
pub mod Http
mod Examples
