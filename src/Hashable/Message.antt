-- ===== src/Hashable/Message.antt =====
-- A public key with the hash of a message: the `aggsig_pair` of BLSSignature and of EORSignature,
-- which have the same fields.
use ledger_sim.Prelude.{Bytes}

pub record AggsigPair : Type 0 where
  pub public_key : Bytes
  pub message_hash : Bytes
