-- ===== src/Correlation/Recompute.antt =====
-- backend/app/services/correlation.py: `recompute_vulnerability` and what it reads.
pub mod Techniques
pub mod Signals
pub mod Vuln
pub mod Twice
pub mod Flags
mod Examples
