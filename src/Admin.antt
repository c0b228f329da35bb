-- ===== src/Admin.antt =====
-- The admin server: the imports of internal/importer and server/admin/http.
pub mod Importer
pub mod Handler
