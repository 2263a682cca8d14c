-- ===== src/Admin.antt =====
-- backend/cmd/smugbox/admin.go: the commands of the administrator on the tables and the files.
pub mod Collect
pub mod Commands
