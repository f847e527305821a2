-- ===== src/Util.antt =====
-- util/: validation of client input, and helpers on slices of strings.
pub mod Strings
pub mod Indexify
pub mod Members
pub mod Validations
