-- ===== src/Tests.antt =====
-- Runs on a small gallery, and the theorems at concrete inputs.
pub mod World
mod Slugs
mod Signing
mod Limiting
mod Publishing
mod Visiting
mod Zipping
mod Paging
mod Collecting
mod Uploading
mod Booting
mod Administering
