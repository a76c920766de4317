-- ===== src/Distr.antt =====
-- The distribution of a mesh over blocks (distr/).
pub mod Halos
