-- ===== src/Validation/NamePuzzleConditions.antt =====
-- `name_puzzle_conditions_list` of validation/chainview.py: the coins that a block spends, each with
-- the hash of the puzzle that was revealed for it and the conditions that the puzzle returned.
use ledger_sim.Prelude.{not, List, [], ◌∷◌, Bytes, length, ◌==◌}
use ledger_sim.Errors.{
  Res, ok, raise, fail, raise_if, eval_error, invalid_block_solution, invalid_coin_solution, ◌>>=◌,
  ◌>>◌,
}
use ledger_sim.Externals.{
  Externals, SExp, atom, PyVal, bytes, list, nil, cons, Iter, stop, fails, yields,
}
use ledger_sim.Hashable.Program.{first, rest, run, tree_hash}
use ledger_sim.Validation.Conditions.{ConditionsDict}
use ledger_sim.Validation.Consensus.{conditions_dict_for_solution}

-- the tuple `(coin_name, puzzle_hash, conditions_dict)`
pub record Npc : Type 0 where
  pub coin_name : Bytes
  pub puzzle_hash : Bytes
  pub conditions_dict : ConditionsDict

-- The three shape checks on `_`, which give the coin's name. Of a `_` that is bytes, `len(_)` differs
-- from 2 or `_[0]` is an integer.
unfoldable pub named_solution : PyVal → Res Bytes
named_solution (list (cons (bytes n) (cons (list (cons a (cons b nil))) nil))) = do
  raise_if (not (length n == 32)) (fail invalid_coin_solution)
  ok n
named_solution v = raise (fail invalid_coin_solution)

-- `except EvalError:` with what the handler does
unfoldable pub on_eval_error : {A : Type 0} → Res A → Res A → Res A
on_eval_error handler (ok a) = ok a
on_eval_error handler (raise eval_error) = handler
on_eval_error handler (raise e) = raise e

module _ (x : Externals) where
  -- the body of the loop
  unfoldable pub name_puzzle_conditions : SExp → Res Npc
  unfolding named_solution on_eval_error
  name_puzzle_conditions name_solution = do
    v ← x.as_python name_solution
    coin_name ← named_solution v
    tail ← rest name_solution
    puzzle_solution_program ← first tail
    puzzle_program ← first puzzle_solution_program
    let puzzle_hash = tree_hash x puzzle_program
    conditions_dict ←
        on_eval_error (raise (fail invalid_coin_solution))
          (conditions_dict_for_solution x puzzle_solution_program)
    ok (record {
      coin_name = coin_name;
      puzzle_hash = puzzle_hash;
      conditions_dict = conditions_dict;
    })

  unfoldable pub npc_iter : Iter SExp → Res (List Npc)
  npc_iter stop = ok []
  npc_iter (fails e) = raise e
  npc_iter (yields s it) = do npc ← name_puzzle_conditions s; npcs ← npc_iter it; ok (npc ∷ npcs)

  -- The program is run on the empty list, which is the empty atom.
  unfoldable pub name_puzzle_conditions_list : SExp → Res (List Npc)
  unfolding on_eval_error npc_iter
  name_puzzle_conditions_list body_program = do
    sexp ←
        on_eval_error (x.breakpoint >> raise (fail invalid_block_solution))
          (run x body_program (atom []))
    npc_iter (x.as_iter sexp)
