-- ===== src/Agents.antt =====
pub mod Factory
pub mod Action
