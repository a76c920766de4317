-- ===== src/Tests.antt =====
-- Runs of the definitions at concrete inputs, and the theorems applied there.
mod Numbers
mod Texts
mod Variables
mod Files
mod Grids
mod Ranges
mod Halos
mod Formats
mod Arguments
mod Expressions
