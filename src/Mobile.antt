-- ===== src/Mobile.antt =====
-- The mobile client, mobile/src: its hooks, where they differ from those of the web client.
pub mod Pvp
pub mod Game
pub mod Api
pub mod Room
pub mod Sounds
pub mod Page
pub mod Analytics
