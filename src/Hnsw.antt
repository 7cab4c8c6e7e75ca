-- ===== src/Hnsw.antt =====
-- src/hnsw: the parts of the nearest-neighbour index.
pub mod Visited
pub mod Cache
pub mod Bruteforce
pub mod Graph
pub mod Search
pub mod Links
pub mod Connect
pub mod Remove
pub mod Knn
pub mod Insert
