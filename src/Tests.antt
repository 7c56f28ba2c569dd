-- ===== src/Tests.antt =====
-- Runs of the definitions, and the theorems at concrete inputs.
pub mod Sample
mod Ids
mod Pairs
mod Sections
mod GetId
mod Commands
mod Bind
mod Shorturl
mod Echo
mod Wsclient
mod Web
mod Send
mod Parser
