-- ===== src/Parse/Arguments/Declared.antt =====
-- `ParseArgs` of a parser that is declared by successful calls with keys of their own finds each name
-- that it looks up in the tables.
pub mod Outcomes
pub mod Invariant
pub mod Arguments
pub mod Tables
pub mod Adding
pub mod Built
