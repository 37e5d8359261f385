-- ===== src/Bus.antt =====
pub mod EventBus
pub mod MessageBus
