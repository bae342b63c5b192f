-- ===== src/Storage.antt =====
-- chiasim/storage: preimages of hashes, and what is known of each coin.
pub mod RamDb
pub mod Overlay
pub mod Heap
