-- ===== src/Api/Publish.antt =====
-- The endpoints of the Lightroom plugin: backend/internal/api/publish_*.go.
pub mod Auth
pub mod Albums
pub mod Updates
pub mod Folders
pub mod Order
pub mod Metadata
pub mod Upload
pub mod Target
pub mod Ingest
pub mod Keeps
pub mod Routes
pub mod Versions
