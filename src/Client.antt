-- ===== src/Client.antt =====
-- The C++ client: client/ of the repository.
pub mod Buffer
pub mod PosixBuffer
pub mod Logger
pub mod PosixIo
pub mod SeastarBuffer
pub mod SeastarIo
pub mod SeastarTlsIo
pub mod Transport
