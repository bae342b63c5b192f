-- ===== src/Ledger/Genesis.antt =====
-- Why no block of a ledger has the genesis hash: its signature would have to be zero, and it would be
-- the plot key.
use ledger_sim.Prelude.{
  ◌≡◌, ◌≢◌, sym, ap, ◌∙◌, Bytes, [], ◌∷◌, bytes_eq_iff, not, bytes_eq, bytes_eq_refl, length,
  if◌then◌else◌, Bool, true, false,
}
use ledger_sim.Errors.{
  Res, ok, raise_if, attribute_error, raise_if-eq-ok, not-eq-false, ok-injective,
}
use ledger_sim.Externals.{Externals}
use ledger_sim.Hashable.Eor.{EorSignature, eor_bytes32, sign, public_key, zero}
use ledger_sim.Hashable.Eor.Laws.{eor_comm, eor-zero}
use ledger_sim.Hashable.Blocks.{Header, header_hash, held}
use ledger_sim.Atoms.HashPointer.{Storage}
use ledger_sim.Validation.HeaderSignature.{check_tip_signature, check_header_signature}
use ledger_sim.Farming.{plot_private_key, sign_header}
use ledger_sim.Farming.Signing.{IsSha256, signed_with}
use ledger_sim.Ledger.{genesis_hash}

module _ (x : Externals) (sha : IsSha256 x) (key : x.hash256 (4 ∷ []) ≢ genesis_hash) where
  -- A header that was signed, and whose signature is accepted, does not have the genesis hash.
  pub hash_not_genesis :
      (storage : Storage) (h : Header) (s : EorSignature) (hash : Bytes)
      → sign_header x h (public_key (plot_private_key x)) ≡ ok s
      → header_hash x h ≡ ok hash
      → check_tip_signature x storage genesis_hash (held hash h) s ≡ ok tt
      → hash ≢ genesis_hash
  unfolding check_tip_signature sign
  hash_not_genesis storage h s hash signed hashed checked same =
      let (hash', owner, hashed', size, made) =
        signed_with x storage (held hash h) h (public_key (plot_private_key x)) s sha signed in
      let is_key : s.val ≡ x.hash256 (4 ∷ []) =
        ap (λ (t : EorSignature). t.val) made
        ∙ (eor_comm (x.hash256 (4 ∷ [])) hash' (sized ∙ sym size)
            ∙ (ap (λ t. eor_bytes32 t (x.hash256 (4 ∷ [])))
                  (sym (ok-injective (sym hashed ∙ hashed')) ∙ same)
                ∙ eor-zero 32 (x.hash256 (4 ∷ [])) sized)) in
      key (
        sym is_key
        ∙ is_zero (check_header_signature x storage (held hash h) s) (bytes_eq hash genesis_hash)
            (ap (λ t. bytes_eq t genesis_hash) same ∙ bytes_eq_refl genesis_hash) checked)
    where
      sized : length (x.hash256 (4 ∷ [])) ≡ 32
      sized = ap length (sha.agrees (4 ∷ [])) ∙ sha.size (4 ∷ [])

      is_zero :
          (rest : Res (Unit {0})) (b : Bool)
          → b ≡ true
          → (if b then raise_if (not (bytes_eq s.val zero.val)) attribute_error else rest) ≡ ok tt
          → s.val ≡ genesis_hash
      is_zero rest true e k =
          (bytes_eq_iff s.val zero.val).0 (not-eq-false _ (raise_if-eq-ok _ _ k))
      is_zero rest false e k = cc
