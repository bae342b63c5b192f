-- ===== src/Farming/Signing.antt =====
-- `sign_header` of farming/__init__.py against `check_header_signature` of validation/chainview.py.
use ledger_sim.Prelude.{
  ◌≡◌, sym, ap, ◌∙◌, not, some, [], ◌∷◌, Bytes, bytes_eq, bytes_eq_iff, length,
}
use ledger_sim.Errors.{
  Res, ok, raise_if, value_error, ◌>>=◌, >>=-eq-ok, >>-eq-ok, raise_if-eq-ok, not-eq-false,
  ok-injective,
}
use ledger_sim.Externals.{Externals}
use ledger_sim.Atoms.HashPointer.{Storage}
use ledger_sim.Hashable.Coin.{std_hash}
use ledger_sim.Hashable.Eor.{EorSignature, sign, public_key}
use ledger_sim.Hashable.Blocks.{
  Header, HeaderPointer, ProofOfSpace, proof_of_space_hash, header_obj, proof_of_space_obj,
  header_hash, header_codec,
}
use ledger_sim.Validation.HeaderSignature.{check_header_signature}
use ledger_sim.Validation.HeaderSignature.Laws.{check_header_signature_iff}
use ledger_sim.Farming.{plot_private_key, sign_header}

-- blspy's hash256 is SHA-256, whose digests have 32 bytes.
pub record IsSha256 (x : Externals) : Type 0 where
  pub agrees : (b : Bytes) → x.hash256 b ≡ x.sha256 b
  pub size : (b : Bytes) → length (x.sha256 b) ≡ 32

module _ (x : Externals) (storage : Storage) (pointer : HeaderPointer) (h : Header) where
  pub signed_with :
      (pk : Bytes) (s : EorSignature)
      → IsSha256 x
      → sign_header x h pk ≡ ok s
      → (hash : Bytes) × (pk ≡ public_key (plot_private_key x))
        × (header_hash x h ≡ ok hash)
        × (length hash ≡ 32)
        × (s ≡ sign (plot_private_key x) hash)
  unfolding sign_header header_hash std_hash
  signed_with pk s sha e =
      let (owner, k) =
        >>-eq-ok (raise_if (not (bytes_eq pk (public_key (plot_private_key x)))) value_error) _ e in
      let (blob, e1, k1) =
        >>=-eq-ok (header_codec.stream h) (λ b. ok (sign (plot_private_key x) (x.hash256 b))) k in
      (
        x.sha256 blob,
        (bytes_eq_iff pk _).0 (not-eq-false _ (raise_if-eq-ok _ _ owner)),
        ap (λ (r : Res Bytes). r >>= λ b. ok (x.sha256 b)) e1,
        sha.size blob,
        sym (ok-injective k1) ∙ ap (sign (plot_private_key x)) (sha.agrees blob),
      )

  -- If blspy's hash is SHA-256, the farmer signs a header for a plot key, and the header and a proof
  -- of space with that key are found, then the chain view accepts the signature.
  pub check_header_signature-sign_header :
      (pos : ProofOfSpace) (s : EorSignature)
      → IsSha256 x
      → header_obj x storage pointer ≡ ok (some h)
      → proof_of_space_obj x storage (proof_of_space_hash h) ≡ ok (some pos)
      → sign_header x h pos.plot_public_key ≡ ok s
      → check_header_signature x storage pointer s ≡ ok tt
  check_header_signature-sign_header pos s sha found found_pos e =
      let (hash, owner, hashed, size, same) = signed_with pos.plot_public_key s sha e in
      (check_header_signature_iff x storage pointer h pos (plot_private_key x) hash s found
          found_pos hashed owner (ap length (sha.agrees (4 ∷ [])) ∙ sha.size (4 ∷ [])) size).1
        same
