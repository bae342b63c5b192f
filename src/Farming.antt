-- ===== src/Farming.antt =====
-- farming/__init__.py: how a farmer makes a block from spend bundles, and signs its header. The key
-- is fixed in the source, as the hash of one byte.

pub mod Spends
pub mod Signing
pub mod Bundles
pub mod Returns
use ledger_sim.Prelude.{
  ℕ, ◌^◌, ◌≡◌, refl, Bool, true, false, not, none, List, [], ◌∷◌, Bytes, bytes_eq, leb, map,
  if◌then◌else◌,
}
use ledger_sim.Prelude.Int.{ℤ, pos, leb_ℤ}
use ledger_sim.Errors.{Res, ok, raise, raise_if, assert, value_error, overflow_error, ◌>>=◌, ◌>>◌}
use ledger_sim.Externals.{Externals, SExp, atom}
use ledger_sim.Atoms.BigEndian.{big_endian}
use ledger_sim.Atoms.HashPointer.{HashPointer, pointer_to}
use ledger_sim.Hashable.Coin.{Coin, name, new_coin, std_hash}
use ledger_sim.Hashable.Eor.{EorSignature, EorPrivateKey, sign, public_key}
use ledger_sim.Hashable.BlsSignature.{BlsSignature}
use ledger_sim.Hashable.Blocks.{
  Body, body_codec, Header, header, HeaderPointer, header_codec, ProofOfSpace, proof_of_space_codec,
}
use ledger_sim.Hashable.SpendBundle.{CoinSolution, SpendBundle, aggregate_bundles}
use ledger_sim.Validation.Consensus.{validate_spend_bundle_signature}
use ledger_sim.Wallet.Deltas.{fees}

-- `block_index.to_bytes(32, "big")`
unfoldable pub index_as_hash : ℕ → Res Bytes
index_as_hash n = do raise_if (leb (256 ^ 32) n) overflow_error; ok (big_endian 32 n)

module _ (x : Externals) where
  -- PLOT_PRIVATE_KEY
  abbrev pub plot_private_key : EorPrivateKey
  plot_private_key = record { val = x.hash256 (4 ∷ []) }

  unfoldable pub sign_header : Header → Bytes → Res EorSignature
  unfolding public_key sign
  sign_header h pk = do
    raise_if (not (bytes_eq pk (public_key plot_private_key))) value_error
    blob ← header_codec.stream h
    ok (sign plot_private_key (x.hash256 blob))

  -- the list `entry`, and the loop around it
  unfoldable pub entries : List CoinSolution → List SExp
  entries [] = []
  entries (s ∷ ss) = x.to_sexp (atom (name x s.coin) ∷ s.solution ∷ []) ∷ entries ss

  unfoldable pub best_solution_program : SpendBundle → SExp
  unfolding entries
  best_solution_program bundle =
      x.to_sexp (x.quote_keyword ∷ x.to_sexp (entries bundle.coin_solutions) ∷ [])

  unfoldable pub collect_best_bundle : List SpendBundle → Res SpendBundle
  collect_best_bundle known_bundles = do
    spend_bundle ← aggregate_bundles x known_bundles
    f ← fees x spend_bundle
    assert (leb_ℤ (pos 0) f)
    ok spend_bundle

  -- the body that `farm_new_block` makes
  unfoldable pub farm_body : ℕ → SpendBundle → Coin → BlsSignature → Bytes → Res Body
  farm_body block_index spend_bundle coinbase_coin coinbase_signature fees_puzzle_hash = do
    valid ← validate_spend_bundle_signature x spend_bundle
    assert valid
    block_index_hash ← index_as_hash block_index
    f ← fees x spend_bundle
    fees_coin ← new_coin block_index_hash fees_puzzle_hash f
    ok (record {
      coinbase_signature = coinbase_signature;
      coinbase_coin = coinbase_coin;
      fees_coin = fees_coin;
      solution_program = best_solution_program spend_bundle;
      program_cost = 0;
      aggregated_signature = spend_bundle.aggregated_signature;
    })

  -- `farm_new_block`
  unfoldable pub farm_new_block :
      HeaderPointer
      → EorSignature
      → ℕ
      → ProofOfSpace
      → SpendBundle
      → Coin
      → BlsSignature
      → Bytes
      → ℕ
      → Res (Header × Body)
  farm_new_block previous_header previous_signature block_index proof_of_space spend_bundle
        coinbase_coin coinbase_signature fees_puzzle_hash timestamp =
      do
        body ← farm_body block_index spend_bundle coinbase_coin coinbase_signature fees_puzzle_hash
        q ← pointer_to (std_hash x) proof_of_space_codec.stream proof_of_space
        b ← pointer_to (std_hash x) (body_codec x).stream body
        ok (header previous_header previous_signature timestamp q b (std_hash x []), body)
