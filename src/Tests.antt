-- ===== src/Tests.antt =====
-- Runs of the theorems on concrete inputs.
pub mod Sample
pub mod Wire
pub mod Deploying
pub mod Creating
pub mod Spending
pub mod Prepared
pub mod Serving
pub mod Publishing
pub mod Browsing
pub mod Connecting
pub mod Exporting
pub mod Commanding
pub mod Showing
pub mod Keeping
