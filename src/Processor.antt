-- ===== src/Processor.antt =====
-- The framework's own chat commands, from Processor/Processor.go.
pub mod Commands
pub mod Bind
pub mod Framework
pub mod Broadcast
pub mod Events
