-- ===== src/Output.antt =====
-- The response side, c/output.
pub mod Response
pub mod Writer
