-- ===== src/Validation/ChainView.antt =====
-- class ChainView of validation/chainview.py, and the update of the databases by an accepted block.
pub mod Deltas
pub mod Keeps
pub mod Augment
pub mod Returned
use ledger_sim.Prelude.{ℕ, ◌+◌, ◌≡◌, refl, Option, none, some, List, [], ◌∷◌, Bytes}
use ledger_sim.Prelude.Int.{ℤ}
use ledger_sim.Errors.{Res, ok, raise, or_raise, attribute_error}
use ledger_sim.Externals.{Externals}
use ledger_sim.Hashable.Coin.{Coin, name, coin_bytes}
use ledger_sim.Hashable.Unspent.{Unspent}
use ledger_sim.Hashable.Eor.{EorSignature, zero}
use ledger_sim.Hashable.Blocks.{Header, HeaderPointer, bare, held, hash_of, header_hash}
use ledger_sim.Storage.RamDb.{
  RamDb, hash_preimage, add_preimage, unspent_for_coin_name, set_unspent_for_coin_name,
}
use ledger_sim.Storage.Heap.{Ref, Heap, Exec, ◌>>=◌, ◌>>◌, pure, gets, lift, modify}
use ledger_sim.Validation.AcceptBlock.{Tip, accept_new_block}
use ledger_sim.Validation.HeaderSignature.{check_tip_signature}

pub record ChainView : Type 0 where
  pub genesis_hash : Bytes
  pub tip_hash : HeaderPointer
  pub tip_signature : EorSignature
  pub tip_index : ℕ
  pub unspent_db : Ref

-- `ChainView.for_genesis_hash`
unfoldable pub for_genesis_hash : Bytes → Ref → ChainView
for_genesis_hash genesis_hash unspent_db = record {
  genesis_hash = genesis_hash;
  tip_hash = bare genesis_hash;
  tip_signature = zero;
  tip_index = 0;
  unspent_db = unspent_db;
}

-- the chain view as `accept_new_block` reads it
unfoldable pub tip_of : ChainView → Heap → Tip
tip_of v heap = record {
  tip_hash = hash_of v.tip_hash;
  tip_index = v.tip_index;
  unspent_db = unspent_for_coin_name (heap v.unspent_db);
}

module _ (x : Externals) where
  -- the two loops of `apply_deltas`
  unfoldable pub apply_additions : ℕ → List Coin → Ref → Ref → Exec (Unit {0})
  apply_additions block_index [] unspent_db storage = pure tt
  apply_additions block_index (c ∷ additions) unspent_db storage = do
    modify unspent_db (
        set_unspent_for_coin_name (name x c)
          (record { confirmed_block_index = block_index; spent_block_index = 0 }))
    modify storage (add_preimage x (coin_bytes x c))
    apply_additions block_index additions unspent_db storage

-- A name that the database lacks gives `None`, which has no index.
unfoldable pub apply_removals : ℕ → List Bytes → Ref → Exec (Unit {0})
apply_removals block_index [] unspent_db = pure tt
apply_removals block_index (n ∷ removals) unspent_db = do
  found ← gets (λ heap. unspent_for_coin_name (heap unspent_db) n)
  unspent ← lift (λ heap. or_raise attribute_error found)
  modify unspent_db (
      set_unspent_for_coin_name n (record {
        confirmed_block_index = unspent.confirmed_block_index;
        spent_block_index = block_index;
      }))
  apply_removals block_index removals unspent_db

module _ (x : Externals) where
  unfoldable pub apply_deltas : ℕ → List Coin → List Bytes → Ref → Ref → Exec (Unit {0})
  apply_deltas block_index additions removals unspent_db storage = do
    apply_additions x block_index additions unspent_db storage
    apply_removals block_index removals unspent_db

  -- the end of `augment_chain_view`: the new chain view, whose tip signature is checked
  unfoldable pub extended : ChainView → Header → EorSignature → Ref → Ref → Exec ChainView
  extended view h header_signature storage new_unspent_db = do
    hash ← lift (λ _. header_hash x h)
    lift (λ heap.
        check_tip_signature x (hash_preimage (heap storage)) view.genesis_hash (held hash h)
          header_signature)
    pure (record {
      genesis_hash = view.genesis_hash;
      tip_hash = held hash h;
      tip_signature = header_signature;
      tip_index = view.tip_index + 1;
      unspent_db = new_unspent_db;
    })

  -- `augment_chain_view` from an accepted block on. It hands its storage to `apply_deltas` as the
  -- unspent database, and its new unspent database as the storage.
  unfoldable pub adopt :
      ChainView → Header → EorSignature → Ref → Ref → List Coin × List Bytes → Exec ChainView
  adopt view h header_signature storage new_unspent_db (additions, removals) =
      apply_deltas (view.tip_index + 1) additions removals storage new_unspent_db
      >> extended view h header_signature storage new_unspent_db

  -- `augment_chain_view`
  unfoldable pub augment_chain_view :
      ChainView → Header → EorSignature → Ref → Ref → ℤ → ℕ → Exec ChainView
  augment_chain_view view h header_signature storage new_unspent_db reward timestamp =
      lift (λ heap.
        accept_new_block x (tip_of view heap) (hash_preimage (heap storage)) reward timestamp h)
      >>= adopt view h header_signature storage new_unspent_db
