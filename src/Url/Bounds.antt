-- ===== src/Url/Bounds.antt =====
-- llurl.c: the fields of a parsed URL lie inside the buffer.
pub mod Host
pub mod Round
pub mod Parse
