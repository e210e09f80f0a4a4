-- ===== src/Pkcs11.antt =====
-- The PKCS#11 demo suite, pkcs11_example/.
pub mod Cryptoki
pub mod Protocol
pub mod RandomGen
pub mod Digest
pub mod SymKeyGen
pub mod ImportObject
pub mod Ecc
pub mod Rsa
pub mod Hmac
pub mod EcdhDerive
pub mod EncryptDecrypt
pub mod ModuleInfo
pub mod Suite
pub mod Clean
pub mod Token
mod Examples
pub mod Verdict
