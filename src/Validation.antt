-- ===== src/Validation.antt =====
-- chiasim/validation: conditions and their checks, the consensus rules and the view of the chain.
pub mod Conditions
pub mod CheckConditions
pub mod Consensus
pub mod NamePuzzleConditions
pub mod AcceptBlock
pub mod HeaderSignature
pub mod ChainView
