-- ===== src/Url/PortField.antt =====
-- llurl.c: the port number of a parsed URL is the one that its PORT field spells.
pub mod Host
pub mod Round
pub mod Parse
