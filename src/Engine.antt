-- ===== src/Engine.antt =====
-- engine/: the evaluation of expressions, and the choice of an index.
pub mod Eval
pub mod Plan
