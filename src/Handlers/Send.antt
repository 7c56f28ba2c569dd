-- ===== src/Handlers/Send.antt =====
-- The sending actions of handlers: `HandleSendGuildChannelMsg`, `HandleSendGuildChannelPrivateMsg`,
-- `HandleSendGroupMsg`, `HandleSendMsg` and `HandleSendPrivateMsg`.
pub mod Direct
pub mod Retry
pub mod Delivery
pub mod Unsent
