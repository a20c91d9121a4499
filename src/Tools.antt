-- ===== src/Tools.antt =====
-- The tool layer (tools/) and its sandbox policy (action/).
pub mod Invocation
pub mod Policy
pub mod Validator
pub mod Registry
pub mod Executor
