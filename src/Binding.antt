-- ===== src/Binding.antt =====
-- lhttp_url.c and lhttp_parser.c: what the Lua functions make of their arguments.
pub mod Callbacks
pub mod Codec
pub mod Execute
pub mod Methods
pub mod Parser
pub mod Query
pub mod Tests
pub mod Url
