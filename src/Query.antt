-- ===== src/Query.antt =====
-- llquery.c and llquery.h: query strings: the codec, the parser and the container of pairs.
pub mod Chars
pub mod Codec
pub mod Strings
pub mod Data
pub mod Parse
pub mod Stringify
pub mod Sort
pub mod Container
pub mod Memory
pub mod Fast
pub mod Tests
