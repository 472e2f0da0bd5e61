-- ===== src/Util.antt =====
-- src/util: the string helpers and the sets of small characters.
pub mod Utf8
pub mod Str
pub mod SmallCharSet
