-- ===== src/Atoms.antt =====
-- chiasim/atoms: the building blocks of the streamable types.
pub mod Codec
pub mod SizedBytes
pub mod BigEndian
pub mod Ints
pub mod Sizes
pub mod StreamableList
pub mod HashPointer
