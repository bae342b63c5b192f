-- ===== src/Hashable/SpendBundle.antt =====
-- hashable/CoinSolution.py and SpendBundle.py: the coins that are spent, with their solutions. What
-- they create is in Wallet/Deltas.
use ledger_sim.Prelude.{List, [], ◌∷◌, ◌++◌, map}
use ledger_sim.Errors.{Res, ok, ◌>>=◌}
use ledger_sim.Externals.{Externals, SExp}
use ledger_sim.Atoms.Codec.{Codec, field, streamable}
use ledger_sim.Atoms.StreamableList.{streamable_list}
use ledger_sim.Hashable.Coin.{Coin, coin_codec}
use ledger_sim.Hashable.Program.{program_codec}
use ledger_sim.Hashable.BlsSignature.{BlsSignature, bls_codec, aggregate}

pub record CoinSolution : Type 0 where
  pub coin : Coin
  pub solution : SExp

pub record SpendBundle : Type 0 where
  pub coin_solutions : List CoinSolution
  pub aggregated_signature : BlsSignature

module _ (x : Externals) where
  unfoldable pub coin_solution_codec : Codec CoinSolution
  unfolding field streamable
  coin_solution_codec =
      streamable (λ (t : Coin × SExp). record { coin = t.0; solution = t.1 })
        (λ (s : CoinSolution). (s.coin, s.solution)) (field coin_codec (program_codec x))

  unfoldable pub spend_bundle_codec : Codec SpendBundle
  unfolding field streamable coin_solution_codec
  spend_bundle_codec =
      streamable
        (λ (t : List CoinSolution × BlsSignature). record {
          coin_solutions = t.0;
          aggregated_signature = t.1;
        })
        (λ (b : SpendBundle). (b.coin_solutions, b.aggregated_signature))
        (field (streamable_list coin_solution_codec) bls_codec)

  -- the loop of `aggregate`
  unfoldable pub all_coin_solutions : List SpendBundle → List CoinSolution
  all_coin_solutions [] = []
  all_coin_solutions (b ∷ bs) = b.coin_solutions ++ all_coin_solutions bs

  -- `SpendBundle.aggregate`
  unfoldable pub aggregate_bundles : List SpendBundle → Res SpendBundle
  unfolding all_coin_solutions
  aggregate_bundles spend_bundles = do
    aggregated_signature ←
        aggregate x (map (λ (b : SpendBundle). b.aggregated_signature) spend_bundles)
    ok (record {
      coin_solutions = all_coin_solutions spend_bundles;
      aggregated_signature = aggregated_signature;
    })

-- `removals`
unfoldable pub removals : SpendBundle → List Coin
removals b = map (λ (s : CoinSolution). s.coin) b.coin_solutions
