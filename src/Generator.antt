-- ===== src/Generator.antt =====
-- internal/generator: rendering of store keys and generator runs, and the evaluation of status
-- expressions.
pub mod Render
pub mod Evaluator
