-- ===== src/Hashable.antt =====
-- chiasim/hashable: the objects that are streamed, hashed and linked by their hashes.
pub mod Message
pub mod Program
pub mod Coin
pub mod Unspent
pub mod Eor
pub mod BlsSignature
pub mod Blocks
pub mod SpendBundle
