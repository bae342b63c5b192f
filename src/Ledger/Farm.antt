-- ===== src/Ledger/Farm.antt =====
-- `new_chain_view` of ledger/ledger_api.py, up to the block that it farms.
use ledger_sim.Prelude.{ℕ, ◌+◌, List, Bytes}
use ledger_sim.Prelude.Int.{ℤ, pos}
use ledger_sim.Errors.{Res, ◌>>=◌}
use ledger_sim.Externals.{Externals}
use ledger_sim.Hashable.Eor.{public_key}
use ledger_sim.Hashable.Blocks.{Body, Header, ProofOfSpace}
use ledger_sim.Hashable.SpendBundle.{SpendBundle, aggregate_bundles}
use ledger_sim.Validation.ChainView.{ChainView}
use ledger_sim.Farming.{plot_private_key, farm_new_block}
use ledger_sim.Ledger.Clock.{timestamp_of}
use ledger_sim.Pool.{get_pool_public_key, create_coinbase_coin_and_signature}

-- int(1e9)
abbrev pub reward : ℤ
reward = pos 1_000_000_000

module _ (x : Externals) where
  -- the block that `new_chain_view` farms, from the coinbase coin to the body and the header. The
  -- clock has milliseconds.
  unfoldable pub farm : ChainView → List SpendBundle → Bytes → Bytes → ℕ → Res (Header × Body)
  farm view spend_bundles coinbase_puzzle_hash fees_puzzle_hash now = do
    let block_number = view.tip_index + 1
    timestamp ← timestamp_of now
    pool_public_key ← get_pool_public_key x
    let plot_public_key = public_key (plot_private_key x)
    let space : ProofOfSpace = record {
      pool_public_key = pool_public_key;
      plot_public_key = plot_public_key;
    }
    (coinbase_coin, coinbase_signature) ←
        create_coinbase_coin_and_signature x block_number coinbase_puzzle_hash reward
          pool_public_key
    spend_bundle ← aggregate_bundles x spend_bundles
    farm_new_block x view.tip_hash view.tip_signature block_number space spend_bundle coinbase_coin
        coinbase_signature fees_puzzle_hash timestamp
