-- ===== src/Utilities.antt =====
-- The stateless helpers under toolkit/source/utilities.
pub mod Math
pub mod Strings
pub mod Serialize
pub mod Net
pub mod Filesystem
