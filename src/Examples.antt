-- ===== src/Examples.antt =====
-- The example clients: examples/ of the repository.
pub mod Params
pub mod Posix
pub mod Simple
pub mod Async
pub mod Limits
pub mod Seastar
pub mod Delivered
pub mod Transports
