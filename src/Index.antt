-- ===== src/Index.antt =====
-- service/index: the reader and the writer of the index database.
pub mod Reader
pub mod Interface
pub mod Writer
