-- ===== src/Sparse.antt =====
-- src/sparse: vectors given by their terms.
pub mod Vector
