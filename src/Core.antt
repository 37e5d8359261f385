-- ===== src/Core.antt =====
pub mod Goals
pub mod Learning
pub mod Reflection
pub mod Intent
pub mod AutoTrigger
pub mod Pipeline
