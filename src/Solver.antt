-- ===== src/Solver.antt =====
-- Solvers: src/solver.
pub mod Images
