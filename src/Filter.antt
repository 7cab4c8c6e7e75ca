-- ===== src/Filter.antt =====
-- src/filter: the indices by which searches are restricted.
pub mod Sortable
pub mod Bucket
pub mod Numeric
pub mod Category
