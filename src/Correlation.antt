-- ===== src/Correlation.antt =====
-- backend/app/services/correlation.py: the edges of the graph, the documents, the merges of KEV and
-- NVD entries, and the recomputation of a vulnerability.
pub mod Links
pub mod Merge
pub mod Entry
pub mod Upserts
pub mod Edges
pub mod Kev
pub mod Unchanged
pub mod Recompute
pub mod Documents
pub mod Nvd
mod Examples
