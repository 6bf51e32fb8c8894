-- ===== src/Tests.antt =====
-- Runs on concrete data: a browser, a server that answers in a fixed way, and states of the hooks.
mod Api
pub mod Game
mod Pvp
mod Tutorial
mod Analytics
mod Promo
mod Ads
mod Mobile
mod Animation
mod Room
mod PvpPage
pub mod Route
mod Board
pub mod MobileApi
mod MobileRoom
pub mod Particles
mod Reveal
mod Arena
mod MobileSounds
mod MobilePage
mod Shop
pub mod Server
