-- ===== src/Server.antt =====
-- The Go server: server/ of the repository, and the Go text that tools/code_gen.py generates for it.
pub mod Decoder
pub mod EventDecoder
pub mod Listener
pub mod Storage
pub mod ClickHouse
pub mod Ingester
pub mod System
pub mod Launch
pub mod Main
