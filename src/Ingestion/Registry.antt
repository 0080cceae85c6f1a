-- ===== src/Ingestion/Registry.antt =====
-- backend/app/ingestion/registry.py, `sync_registry` of base.py, `build_worker` of
-- backend/app/workers/__init__.py, and the helpers of backend/app/config.py that they read.
pub mod Defs
pub mod Intelligence
pub mod Feeds
pub mod Table
pub mod Sync
pub mod Workers
mod Examples
