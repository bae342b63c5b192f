-- ===== src/Ledger.antt =====
-- ledger/ledger_api.py: the ledger that clients call. One call runs at a time: the calls that change
-- it hold a lock, and the storage answers at once. A response's text is left out.
pub mod Sound
pub mod Keeps
pub mod Extends
pub mod Genesis
pub mod Invariant
pub mod Reach
pub mod Attempt
pub mod Returns
pub mod Live
pub mod Calls
pub mod Listing
pub mod Clock
pub mod Farm
pub mod Api
use ledger_sim.Prelude.{
  ℕ, zero, suc, ◌+◌, ◌/◌, Bool, true, false, not, ◌&&◌, ◌==◌, Option, none, some, List, [], ◌∷◌,
  ◌++◌, Bytes, bytes_eq, replicate, map, if◌then◌else◌,
}
use ledger_sim.Prelude.Int.{ℤ, pos}
use ledger_sim.Errors.{Res, ok, raise, value_error, attribute_error}
use ledger_sim.Externals.{Externals}
use ledger_sim.Hashable.Coin.{Coin}
use ledger_sim.Hashable.Unspent.{Unspent}
use ledger_sim.Hashable.Eor.{public_key}
use ledger_sim.Hashable.Blocks.{
  Body, Header, HeaderPointer, ProofOfSpace, header_codec, body_codec, header_obj, body_obj,
  body_hash,
}
use ledger_sim.Hashable.SpendBundle.{SpendBundle, aggregate_bundles}
use ledger_sim.Storage.RamDb.{
  RamDb, hash_preimage, add_preimage, unspent_for_coin_name, all_unspents,
}
use ledger_sim.Storage.Heap.{Ref, Heap, Exec, ◌>>=◌, ◌>>◌, lift, modify}
use ledger_sim.Validation.Consensus.{validate_spend_bundle_signature}
use ledger_sim.Validation.ChainView.{ChainView, for_genesis_hash, augment_chain_view}
use ledger_sim.Farming.{plot_private_key, farm_new_block, sign_header}
use ledger_sim.Ledger.Farm.{reward, farm}
use ledger_sim.Pool.{get_pool_public_key, create_coinbase_coin_and_signature}

abbrev pub genesis_hash : Bytes
genesis_hash = replicate 32 0

pub record Ledger : Type 0 where
  pub chain_view : ChainView
  pub storage : Ref
  pub unspent_db : Ref
  pub spend_bundles : List SpendBundle
  pub now : ℕ

-- `LedgerAPI(block_tip, storage)`, which does not look at `block_tip`
unfoldable pub new_ledger : Ref → Ledger
new_ledger storage = record {
  chain_view = for_genesis_hash genesis_hash storage;
  storage = storage;
  unspent_db = storage;
  spend_bundles = [];
  now = 0;
}

-- What a call returns, the ledger and the databases after it
abbrev pub Call : Type 0 → Type 0
Call A = Ledger → Heap → Res A × Ledger × Heap

-- `do_push_tx`, from the attempt to farm a block on: a bundle that a block can be farmed with is
-- kept.
unfoldable pub keep_tx :
    SpendBundle → Ledger → Res ChainView × Heap → Res (Unit {0}) × Ledger × Heap
keep_tx tx l (ok view, heap) =
    (ok tt, record l { spend_bundles = l.spend_bundles ++ tx ∷ [] }, heap)
keep_tx tx l (raise e, heap) = (raise e, l, heap)

module _ (x : Externals) where
  -- `storage.add_preimage(bytes(_)) for _ in (header, body)`
  unfoldable pub store_block : Ref → Header → Body → Exec (Unit {0})
  store_block storage h b = do
    header_blob ← lift (λ _. header_codec.stream h)
    modify storage (add_preimage x header_blob)
    body_blob ← lift (λ _. (body_codec x).stream b)
    modify storage (add_preimage x body_blob)

  -- from the header's signature on
  unfoldable pub extend_with : ℕ → ChainView → Ref → Ref → Header × Body → Exec ChainView
  extend_with now view storage unspent_db (h, b) = do
    header_signature ← lift (λ _. sign_header x h (public_key (plot_private_key x)))
    store_block storage h b
    augment_chain_view x view h header_signature storage unspent_db reward now

  unfoldable pub new_chain_view :
      ℕ → ChainView → List SpendBundle → Bytes → Bytes → Ref → Ref → Exec ChainView
  new_chain_view now view spend_bundles coinbase_puzzle_hash fees_puzzle_hash storage unspent_db =
      lift (λ _. farm x view spend_bundles coinbase_puzzle_hash fees_puzzle_hash now)
      >>= extend_with now view storage unspent_db

  -- the part under the lock
  unfoldable pub accept_tx : SpendBundle → Call (Unit {0})
  unfolding keep_tx
  accept_tx tx l heap = keep_tx tx l (
      new_chain_view l.now l.chain_view (l.spend_bundles ++ tx ∷ []) (replicate 32 0)
        (replicate 32 255) l.storage l.unspent_db heap)

  unfoldable pub push_tx : SpendBundle → Call (Unit {0})
  push_tx tx l heap = elim (validate_spend_bundle_signature x tx) [
    | ok true ↦ accept_tx tx l heap
    | ok false ↦ (raise value_error, l, heap)
    | raise e ↦ (raise e, l, heap)
  ]

  -- the block of the tip, once it is found
  unfoldable pub tip_block : ChainView → Ref → Heap → Res (Header × Option Body)
  tip_block view storage heap = elim (header_obj x (hash_preimage (heap storage)) view.tip_hash) [
    | ok none ↦ raise attribute_error
    | ok (some h) ↦ elim (body_obj x (hash_preimage (heap storage)) (body_hash h)) [
      | ok b ↦ ok (h, b)
      | raise e ↦ raise e
    ]
    | raise e ↦ raise e
  ]

  -- `do_next_block`, after the attempt to farm a block
  unfoldable pub advance :
      Ledger → Res ChainView × Heap → Res (Header × Option Body) × Ledger × Heap
  unfolding tip_block
  advance l (ok view, heap) =
      (tip_block view l.storage heap, record l { spend_bundles = []; chain_view = view }, heap)
  advance l (raise e, heap) = (raise e, l, heap)

  unfoldable pub next_block : Bytes → Bytes → Call (Header × Option Body)
  unfolding advance
  next_block coinbase_puzzle_hash fees_puzzle_hash l heap = advance l (
      new_chain_view l.now l.chain_view l.spend_bundles coinbase_puzzle_hash fees_puzzle_hash
        l.storage l.unspent_db heap)

-- `do_get_tip`
unfoldable pub get_tip : Ledger → HeaderPointer × ℕ × Bytes
get_tip l = (l.chain_view.tip_hash, l.chain_view.tip_index, l.chain_view.genesis_hash)

unfoldable pub skip_milliseconds : ℕ → Call ℕ
skip_milliseconds ms l heap = (ok (l.now + ms), record l { now = l.now + ms }, heap)

-- `do_all_unspents`: the names
unfoldable pub all_unspent_names : Ledger → Heap → List Bytes
all_unspent_names l heap = map (λ (e : Bytes × Unspent). e.0) (all_unspents (heap l.unspent_db))

-- `do_hash_preimage` and `do_unspent_for_coin_name`, which asks the storage
unfoldable pub preimage : Bytes → Ledger → Heap → Option Bytes
preimage hash l heap = hash_preimage (heap l.storage) hash

unfoldable pub unspent : Bytes → Ledger → Heap → Option Unspent
unspent coin_name l heap = unspent_for_coin_name (heap l.storage) coin_name
