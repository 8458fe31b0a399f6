-- ===== src/Store/Ids.antt =====
-- Node identifiers: the search for a free one ends, and the operations keep them distinct.
pub mod Fresh
pub mod Distinct
