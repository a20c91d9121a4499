-- ===== src/Runtime.antt =====
-- The canonical runtime boundary (runtime/): task kinds, profiles, components and the routes.
pub mod Contracts
pub mod Routes
pub mod Execution
