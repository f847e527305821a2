-- ===== src/Cookbook.antt =====
-- cookbook/: cookbooks and their versions, in the in-memory store and with no S3 upload configured.
pub mod Versioning
pub mod Versions
pub mod Store
