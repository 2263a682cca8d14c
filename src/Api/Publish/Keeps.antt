-- ===== src/Api/Publish/Keeps.antt =====
-- The publish endpoints keep the constraints of the tables.
pub mod OfAlbums
pub mod OfFolders
pub mod OfFields
pub mod OfUploads
