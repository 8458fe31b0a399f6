-- ===== src/Validate.antt =====
-- The check of a draft: frontend/src/builder-v2/validation/validate-draft.ts.
pub mod Graph
pub mod Nodes
pub mod Reach
pub mod Cycles
pub mod Document
mod Tests
