-- ===== src/Matching.antt =====
-- backend/app/services/rampart/matching.py
pub mod Version
pub mod Range
pub mod Asset
mod Examples
