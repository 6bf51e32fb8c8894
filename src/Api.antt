-- ===== src/Api.antt =====
-- web/src/lib/api.ts, the client of the game's HTTP interface: its types, the browser's storage, the
-- requests, and the calls.
pub mod Types
pub mod Storage
pub mod Client
pub mod Calls
