-- ===== src/App.antt =====
-- The SSS demo application, app/.
pub mod Sss
pub mod Rng
pub mod Keys
pub mod SignVerify
pub mod Ecdh
pub mod EncDec
pub mod Csr
pub mod Entry
pub mod Watching
pub mod Closing
pub mod Runs
mod Examples
pub mod Der
