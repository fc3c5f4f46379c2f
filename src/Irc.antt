-- ===== src/Irc.antt =====
-- The IRC line parser: lib/twitch_core/include/tb/parser.
pub mod Scan
pub mod Message
pub mod Parse
pub mod Client
mod Tests
