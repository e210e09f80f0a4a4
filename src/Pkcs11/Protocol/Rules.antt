-- ===== src/Pkcs11/Protocol/Rules.antt =====
-- One rule for each kind of call: what has to be shown of the code after it, on success and on
-- failure.
mod State
mod Objects
mod Operations
pub use State.*
pub use Objects.*
pub use Operations.*
