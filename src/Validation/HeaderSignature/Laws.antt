-- ===== src/Validation/HeaderSignature/Laws.antt =====
-- Which signature of a header is accepted.
use ledger_sim.Prelude.{◌≡◌, ◌↔◌, some, Bytes, length}
use ledger_sim.Errors.{ok, raise_if-eq-ok, not-eq-false}
use ledger_sim.Externals.{Externals}
use ledger_sim.Atoms.HashPointer.{Storage}
use ledger_sim.Hashable.Eor.{EorSignature, EorPrivateKey, sign, public_key}
use ledger_sim.Hashable.Eor.Laws.{validate-sign, validate_unique}
use ledger_sim.Hashable.Blocks.{
  Header, HeaderPointer, ProofOfSpace, proof_of_space_hash, header_obj, proof_of_space_obj,
  header_hash,
}
use ledger_sim.Validation.HeaderSignature.{check_header_signature}

module _ (x : Externals) (storage : Storage) (pointer : HeaderPointer) (h : Header)
    (pos : ProofOfSpace) where
  -- For a header that is found, with its proof of space, and whose plot key belongs to a private key,
  -- exactly the private key's signature of the header's hash is accepted, where the key and the hash
  -- have 32 bytes.
  pub check_header_signature_iff :
      (k : EorPrivateKey) (hash : Bytes) (s : EorSignature)
      → header_obj x storage pointer ≡ ok (some h)
      → proof_of_space_obj x storage (proof_of_space_hash h) ≡ ok (some pos)
      → header_hash x h ≡ ok hash
      → pos.plot_public_key ≡ public_key k
      → length k.val ≡ 32
      → length hash ≡ 32
      → (check_header_signature x storage pointer s ≡ ok tt) ↔ (s ≡ sign k hash)
  unfolding check_header_signature
  check_header_signature_iff k hash s found found_pos hashed owner sk sh =
      rw (found, found_pos, hashed, owner)
        (
          (λ e. validate_unique k hash s sk sh (not-eq-false _ (raise_if-eq-ok _ _ e))),
          (λ e. rw (e, validate-sign k hash sk sh)),
        )
