-- ===== src/Core.antt =====
-- src/core: what the index manager does with the parts of an index.
pub mod Recovery
