-- ===== src/Api/Visitor.antt =====
-- The endpoints of the visitors: backend/internal/api/albums.go, photos.go, folders.go, access.go
-- and unlock.go.
pub mod Access
pub mod Unlock
pub mod Pages
pub mod Download
pub mod Tree
