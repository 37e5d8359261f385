-- ===== src/Ml.antt =====
pub mod Decomposer
pub mod Context
pub mod Frames
pub mod Executor
pub mod Assembler
pub mod Hierarchy
