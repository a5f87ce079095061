-- ===== src/Migrate.antt =====
-- The one-off migrations of src/bin/.
pub mod Phantom
