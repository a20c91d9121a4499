-- ===== src/Memory.antt =====
-- The memory of the program (memory/): its graph of notes.
pub mod Graph
pub mod Compression
