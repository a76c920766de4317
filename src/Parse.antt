-- ===== src/Parse.antt =====
-- The configuration language: src/parse.
pub mod Text
pub mod KeyMap
pub mod Number
pub mod Vars
pub mod Expand
pub mod Evaluate
pub mod EvalExpr
pub mod Stream
pub mod Commands
pub mod CodeBlocks
pub mod Template
pub mod Arguments
