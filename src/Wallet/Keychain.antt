-- ===== src/Wallet/Keychain.antt =====
-- wallet/keychain.py: private keys by their public keys, and the signature of a solution.
pub mod Kept
pub mod Signs
use ledger_sim.Prelude.{ℕ, List, [], ◌∷◌, Bytes}
use ledger_sim.Prelude.Dict.{Dict, lookup, insert}
use ledger_sim.Errors.{Res, ok, raise, map_res, or_raise, value_error, ◌>>=◌}
use ledger_sim.Externals.{Externals, SExp}
use ledger_sim.Hashable.Message.{AggsigPair}
use ledger_sim.Hashable.BlsSignature.{BlsSignature, aggregate}
use ledger_sim.Validation.Conditions.{conditions_by_opcode}
use ledger_sim.Validation.Consensus.{conditions_for_solution, hash_key_pairs_for_conditions_dict}
use ledger_sim.Wallet.BlsPrivateKey

module _ (x : Externals) where
  open x use {PrivateKey}

  abbrev pub Keychain : Type 0
  Keychain = Dict PrivateKey

  -- the key pair of one exponent
  unfoldable pub key_pair : ℕ → Res (Bytes × PrivateKey)
  key_pair e = do
    bls_private_key ← BlsPrivateKey.from_secret_exponent x e
    pk ← BlsPrivateKey.public_key x bls_private_key
    ok (pk, bls_private_key)

  -- The keys before one that raises stay in the keychain.
  unfoldable pub add_secret_exponents : List ℕ → Keychain → Res (Unit {0}) × Keychain
  add_secret_exponents [] keychain = (ok tt, keychain)
  add_secret_exponents (e ∷ es) keychain = elim (key_pair e) [
    | ok (pk, key) ↦ add_secret_exponents es (insert pk key keychain)
    | raise ex ↦ (raise ex, keychain)
  ]

  -- `Keychain.sign`
  unfoldable pub sign : Keychain → AggsigPair → Res BlsSignature
  sign keychain pair = do
    bls_private_key ← or_raise value_error (lookup pair.public_key keychain)
    BlsPrivateKey.sign x bls_private_key pair.message_hash

  unfoldable pub signature_for_solution : Keychain → SExp → Res BlsSignature
  signature_for_solution keychain solution = do
    conditions ← conditions_for_solution x solution
    pairs ← hash_key_pairs_for_conditions_dict (conditions_by_opcode conditions)
    signatures ← map_res (sign keychain) pairs
    aggregate x signatures
