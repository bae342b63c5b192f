-- ===== src/Pool.antt =====
-- pool/__init__.py: the coin that rewards a block, and the pool's signature of it. The pool has 100
-- keys, which blspy derives from a fixed seed.
pub mod Coinbase
pub mod Rewards
use ledger_sim.Prelude.{ℕ, zero, suc, List, [], ◌∷◌, ◌++◌, Bytes}
use ledger_sim.Prelude.Dict.{Dict, lookup, insert}
use ledger_sim.Prelude.Int.{ℤ}
use ledger_sim.Errors.{Res, ok, raise, map_res, or_raise, value_error, ◌>>=◌}
use ledger_sim.Externals.{Externals}
use ledger_sim.Atoms.Codec.{from_bytes}
use ledger_sim.Atoms.SizedBytes.{sized, bytes48}
use ledger_sim.Hashable.BlsSignature.{BlsSignature}
use ledger_sim.Hashable.Coin.{Coin, new_coin, name}
use ledger_sim.Farming.{index_as_hash}

unfoldable pub create_coinbase_coin : ℕ → Bytes → ℤ → Res Coin
create_coinbase_coin block_index puzzle_hash reward = do
  block_index_as_hash ← index_as_hash block_index
  new_coin block_index_as_hash puzzle_hash reward

-- the seed b"foo"
abbrev pub seed : Bytes
seed = 102 ∷ 111 ∷ 111 ∷ []

-- `range(n)`
abbrev pub range : ℕ → List ℕ
range zero = []
range (suc n) = range n ++ n ∷ []

module _ (x : Externals) where
  open x use {PrivateKey}

  -- POOL_LOOKUP, for the keys of these indices. A public key is read as 48 bytes.
  unfoldable pub pool_lookup : List ℕ → Dict PrivateKey → Res (Dict PrivateKey)
  pool_lookup [] d = ok d
  pool_lookup (i ∷ is') d = do
    let key = x.private_child seed i
    pk ← from_bytes bytes48 (x.public_key_bytes (x.public_key_of key))
    pool_lookup is' (insert pk key d)

  -- `get_pool_public_key()`, which is asked for index 0 alone
  unfoldable pub get_pool_public_key : Res Bytes
  get_pool_public_key =
      from_bytes bytes48 (x.public_key_bytes (x.public_key_of (x.private_child seed 0)))

  -- `BLSSignature(key.sign_prepend_prehashed(message_hash).serialize())`
  unfoldable pub sign_hash : PrivateKey → Bytes → Res BlsSignature
  sign_hash key message_hash = do
    v ← sized 96 (x.serialize (x.sign_prepend_prehashed key message_hash))
    ok (record { sig = v })

  unfoldable pub signature_for_coinbase : Coin → PrivateKey → Res BlsSignature
  signature_for_coinbase coin pool_private_key = sign_hash pool_private_key (name x coin)

  unfoldable pub sign_coinbase_coin : Coin → Bytes → Res BlsSignature
  sign_coinbase_coin coin public_key = do
    keys ← pool_lookup (range 100) []
    private_key ← or_raise value_error (lookup public_key keys)
    signature_for_coinbase coin private_key

  unfoldable pub create_coinbase_coin_and_signature :
      ℕ → Bytes → ℤ → Bytes → Res (Coin × BlsSignature)
  create_coinbase_coin_and_signature block_index puzzle_hash reward public_key = do
    coin ← create_coinbase_coin block_index puzzle_hash reward
    signature ← sign_coinbase_coin coin public_key
    ok (coin, signature)
