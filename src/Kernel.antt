-- ===== src/Kernel.antt =====
-- Deciding an instance: backend/ontology_platform/semantic_kernel.py. The rule sandbox is the
-- parameter `evaluate`: whether an expression passed, or the error that it raised.
pub mod Order
pub mod Verdict
pub mod Report
pub mod Select
