-- ===== src/Cpp.antt =====
-- The C++ application, cpp_app/.
pub mod Calls
pub mod Args
pub mod Session
pub mod EcKey
pub mod RsaKey
pub mod Csr
pub mod Commands
pub mod Entry
pub mod Watching
pub mod Closing
pub mod Makes
pub mod Der
pub mod Tracing
pub mod Runs
mod Examples
