-- ===== src/Forms.antt =====
-- forms/: the protection of a form's submissions.
pub mod Base64
pub mod Tokens
pub mod Context
pub mod Services
pub mod Defences
pub mod Protection
pub mod Replay
pub mod Decorator
pub mod Logging
pub mod Mixin
