-- ===== src/Validation/HeaderSignature.antt =====
-- `check_header_signature` and `ChainView.check_tip_signature` of validation/chainview.py.
pub mod Laws
use ledger_sim.Prelude.{
  ℕ, ◌≡◌, refl, Bool, true, false, not, Option, none, some, List, [], ◌∷◌, Bytes, bytes_eq,
  if◌then◌else◌,
}
use ledger_sim.Errors.{
  Res, ok, raise, fail, raise_if, or_raise, attribute_error, missing_from_storage,
  bad_header_signature, ◌>>=◌, ◌>>◌,
}
use ledger_sim.Externals.{Externals}
use ledger_sim.Atoms.HashPointer.{Storage}
use ledger_sim.Hashable.Eor.{EorSignature, validate, zero}
use ledger_sim.Hashable.Blocks.{
  Header, HeaderPointer, hash_of, proof_of_space_hash, header_obj, proof_of_space_obj, header_hash,
}

module _ (x : Externals) (storage : Storage) where
  -- `HeaderHash(header)` is the hash of the header's bytes.
  unfoldable pub check_header_signature : HeaderPointer → EorSignature → Res (Unit {0})
  check_header_signature pointer header_signature = do
    found ← header_obj x storage pointer
    h ← or_raise (fail missing_from_storage) found
    found_pos ← proof_of_space_obj x storage (proof_of_space_hash h)
    pos ← or_raise (fail missing_from_storage) found_pos
    message_hash ← header_hash x h
    raise_if
        (not (
          validate header_signature
            (record { public_key = pos.plot_public_key; message_hash = message_hash } ∷ [])))
        (fail bad_header_signature)

  -- `check_tip_signature`. The enum has no member BAD_GENESIS_SIGNATURE, so that to name it raises an
  -- AttributeError.
  unfoldable pub check_tip_signature : Bytes → HeaderPointer → EorSignature → Res (Unit {0})
  check_tip_signature genesis_hash tip_hash tip_signature =
      let checked = check_header_signature tip_hash tip_signature in
      if bytes_eq (hash_of tip_hash) genesis_hash
      then raise_if (not (bytes_eq tip_signature.val zero.val)) attribute_error
      else checked
