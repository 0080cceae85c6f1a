-- ===== src/Rampart.antt =====
-- backend/app/services/rampart/repository.py and export.py, and the validators and the writing
-- handlers of backend/app/api/rampart.py.
pub mod Tables
pub mod Repository
pub mod Handlers
pub mod Report
pub mod Payload
pub mod Reads
pub mod Samples
mod Examples
