-- ===== src/Handlers.antt =====
-- handlers: what the actions of a OneBot client do.
pub mod Types
pub mod Reply
pub mod Send
pub mod Revert
pub mod Quick
pub mod Parser
