-- ===== src/Demo.antt =====
-- demo/src: the passkey demo, its shared code, its client and its server.
pub mod Constants
pub mod Schemas
pub mod Manifests
pub mod State
pub mod Discover
pub mod Spend
pub mod Base64
pub mod Finalize
pub mod Passkeys
pub mod Service
pub mod Storage
pub mod Config
pub mod Status
pub mod Server
pub mod Response
pub mod Http
pub mod Exporter
pub mod Api
pub mod Wizard
