-- ===== src/Client/PosixIo.antt =====
-- client/posix_io/PosixIO.{hh,cc}: the socket transport, blocking or driven by write opportunities.
pub mod State
pub mod Connection
pub mod Send
pub mod Drain
pub mod Pending
pub mod Keeps
pub mod Write
pub mod Accept
pub mod Flush
pub mod Failures
pub mod History
pub mod Socket
pub mod OneSocket
