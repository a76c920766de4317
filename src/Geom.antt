-- ===== src/Geom.antt =====
-- Meshes of multi-indices: src/geom.
pub mod Vect
pub mod Index
pub mod Block
pub mod Face
pub mod RangeMulti
pub mod FaceBlock
