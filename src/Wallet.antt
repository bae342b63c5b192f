-- ===== src/Wallet.antt =====
-- The modules of chiasim/wallet.
pub mod Deltas
pub mod BlsPrivateKey
pub mod Keychain
