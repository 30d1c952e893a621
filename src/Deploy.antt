-- ===== src/Deploy.antt =====
-- tools/deploy/src: publishing the code cells and creating an account.
pub mod Artifacts
pub mod Plan
pub mod Args
pub mod Manifest
pub mod Account
pub mod Bootstrap
pub mod Publisher
pub mod AtomicFile
pub mod Command
