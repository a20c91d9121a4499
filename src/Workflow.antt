-- ===== src/Workflow.antt =====
-- The cognitive control bus (workflow/): phases, execution context, correction loop, engine.
pub mod Phase
pub mod Advice
pub mod Context
pub mod Correction
pub mod Engine
pub mod Validation
pub mod Generation
pub mod Facade
