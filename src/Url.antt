-- ===== src/Url.antt =====
-- llurl.c and llurl.h: the URL parser, from its tables up to `http_parser_parse_url`.
pub mod Chars
pub mod Automaton
pub mod Fields
pub mod Port
pub mod Host
pub mod Scan
pub mod Locals
pub mod Server
pub mod Round
pub mod Parse
pub mod Invariant
pub mod Bounds
pub mod Termination
pub mod ReadAhead
pub mod Locality
pub mod Absolute
pub mod PortField
pub mod Target
pub mod Connect
pub mod Tests
