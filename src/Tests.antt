-- ===== src/Tests.antt =====
-- Concrete runs of the models, and each property at a concrete input.
mod Fixtures
mod Engine
mod Corrections
mod Tools
mod Actions
mod Reasoning
mod Sessions
mod Events
mod Maintenance
mod Llm
mod Answers
mod Runtime
mod Memory
mod Reflections
