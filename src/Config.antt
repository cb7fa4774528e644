-- ===== src/Config.antt =====
-- src/config/: the parts of the configuration that the modelled code reads.
pub mod Validator
pub mod TxSigner
