-- ===== src/Wallet/BlsPrivateKey.antt =====
-- wallet/BLSPrivateKey.py: a private key of blspy, made from bytes or from an exponent.
use ledger_sim.Prelude.{ℕ, ◌%◌, Bytes}
use ledger_sim.Errors.{Res, ok, ◌>>=◌}
use ledger_sim.Externals.{Externals}
use ledger_sim.Atoms.BigEndian.{big_endian, from_big_endian}
use ledger_sim.Atoms.SizedBytes.{sized}
use ledger_sim.Hashable.BlsSignature.{BlsSignature}

abbrev pub group_order : ℕ
group_order = 52435875175126190479447740508185965837690552500527637822603658699938581184513

module _ (x : Externals) where
  open x use {PrivateKey}

  -- An exponent below the group's order has 32 bytes.
  unfoldable pub from_secret_exponent : ℕ → Res PrivateKey
  from_secret_exponent secret_exponent =
      x.private_key_from_bytes (big_endian 32 (secret_exponent % group_order))

  -- `BLSPrivateKey.sign`
  unfoldable pub sign : PrivateKey → Bytes → Res BlsSignature
  sign key message_hash = do
    v ← sized 96 (x.serialize (x.sign_prepend_prehashed key message_hash))
    ok (record { sig = v })

  -- `BLSPrivateKey.public_key`
  unfoldable pub public_key : PrivateKey → Res Bytes
  public_key key = sized 48 (x.public_key_bytes (x.public_key_of key))

  unfoldable pub secret_exponent : PrivateKey → ℕ
  secret_exponent key = from_big_endian (x.private_key_bytes key)
