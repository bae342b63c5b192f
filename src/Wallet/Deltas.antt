-- ===== src/Wallet/Deltas.antt =====
-- wallet/deltas.py, and the methods of SpendBundle that use it: what a solution, a bundle or a body
-- adds and removes.
pub mod Accepted
use ledger_sim.Prelude.{ℕ, List, [], ◌∷◌, ◌++◌, Bytes, map}
use ledger_sim.Prelude.Int.{ℤ, pos, ◌+ℤ◌, ◌-ℤ◌, sum_ℤ}
use ledger_sim.Errors.{Res, ok, raise, ◌>>=◌}
use ledger_sim.Externals.{Externals, SExp}
use ledger_sim.Hashable.Coin.{Coin, name}
use ledger_sim.Hashable.Blocks.{Body}
use ledger_sim.Hashable.SpendBundle.{CoinSolution, SpendBundle, removals}
use ledger_sim.Validation.Consensus.{
  conditions_dict_for_solution, created_outputs_for_conditions_dict,
}
use ledger_sim.Validation.NamePuzzleConditions.{Npc, name_puzzle_conditions_list}
use ledger_sim.Validation.AcceptBlock.{created_coins}

module _ (x : Externals) where
  unfoldable pub additions_for_solution : Bytes → SExp → Res (List Coin)
  additions_for_solution coin_name solution = do
    d ← conditions_dict_for_solution x solution
    created_outputs_for_conditions_dict x d coin_name

  -- the generator, as the list of what it yields
  unfoldable pub additions_for_body : Body → Res (List Coin)
  additions_for_body body = do
    npc_list ← name_puzzle_conditions_list x body.solution_program
    created ← created_coins x npc_list
    ok (body.coinbase_coin ∷ body.fees_coin ∷ created)

  unfoldable pub removals_for_body : Body → Res (List Bytes)
  removals_for_body body = do
    npc_list ← name_puzzle_conditions_list x body.solution_program
    ok (map (λ (n : Npc). n.coin_name) npc_list)

  -- the loop of `SpendBundle.additions`
  unfoldable pub additions_for_solutions : List CoinSolution → Res (List Coin)
  additions_for_solutions [] = ok []
  additions_for_solutions (s ∷ ss) = do
    items ← additions_for_solution (name x s.coin) s.solution
    more ← additions_for_solutions ss
    ok (items ++ more)

  -- `SpendBundle.additions`
  unfoldable pub bundle_additions : SpendBundle → Res (List Coin)
  bundle_additions b = additions_for_solutions b.coin_solutions

  -- `SpendBundle.fees`
  unfoldable pub fees : SpendBundle → Res ℤ
  unfolding removals
  fees b = do
    let amount_in = sum_ℤ (map (λ (c : Coin). c.amount) (removals b))
    additions ← bundle_additions b
    let amount_out = sum_ℤ (map (λ (c : Coin). c.amount) additions)
    ok (amount_in -ℤ amount_out)
