-- ===== src/Validation/Consensus.antt =====
-- validation/consensus.py: from a solution to conditions, and from conditions to the coins that they
-- create and the signatures that they want.
use ledger_sim.Prelude.{Bool, none, some, List, [], ◌∷◌, ◌++◌, Bytes}
use ledger_sim.Prelude.Dict.{lookup}
use ledger_sim.Errors.{Res, ok, raise, map_res, type_error, assertion_error, ◌>>=◌}
use ledger_sim.Externals.{Externals, SExp, PyVal, bytes, list, nil, cons}
use ledger_sim.Hashable.Message.{AggsigPair}
use ledger_sim.Hashable.Program.{first, rest, run}
use ledger_sim.Hashable.Coin.{Coin, new_coin}
use ledger_sim.Hashable.BlsSignature.{aggsig_pair, validate}
use ledger_sim.Hashable.SpendBundle.{SpendBundle, CoinSolution}
use ledger_sim.Validation.Conditions.{
  Condition, ConditionsDict, ConditionOpcode, value, parse_sexp_to_conditions, conditions_by_opcode,
}
use ledger_sim.Validation.CheckConditions.{int_of}

-- `conditions_dict.get(opcode, [])`
abbrev pub get_or_empty : Bytes → ConditionsDict → List Condition
get_or_empty op d = elim (lookup op d) [ none ↦ [] | some cs ↦ cs ]

-- `bytes(v)`, as the casts of the sized byte types make it: a list would have to hold integers.
unfoldable pub bytes_of : PyVal → Res Bytes
bytes_of (bytes b) = ok b
bytes_of (list nil) = ok []
bytes_of (list (cons v vs)) = raise type_error

module _ (x : Externals) where
  unfoldable pub conditions_for_solution : SExp → Res (List Condition)
  conditions_for_solution solution_program = do
    puzzle_sexp ← first solution_program
    tail ← rest solution_program
    solution_sexp ← first tail
    r ← run x puzzle_sexp solution_sexp
    parse_sexp_to_conditions x r

  unfoldable pub conditions_dict_for_solution : SExp → Res ConditionsDict
  unfolding conditions_for_solution
  conditions_dict_for_solution solution = do
    conditions ← conditions_for_solution solution
    ok (conditions_by_opcode conditions)

  -- the body of the loop of `created_outputs_for_conditions_dict`, after the opcode
  unfoldable pub created_output : Bytes → List PyVal → Res Coin
  unfolding bytes_of
  created_output input_coin_name (puzzle_hash ∷ amount_bin ∷ []) = do
    amount ← int_of x amount_bin
    ph ← bytes_of puzzle_hash
    new_coin input_coin_name ph amount
  created_output input_coin_name [] = raise assertion_error
  created_output input_coin_name (a ∷ []) = raise assertion_error
  created_output input_coin_name (a ∷ b ∷ c ∷ ds) = raise assertion_error

  unfoldable pub created_outputs_for_conditions_dict : ConditionsDict → Bytes → Res (List Coin)
  unfolding created_output
  created_outputs_for_conditions_dict conditions_dict input_coin_name =
      map_res (λ (c : Condition). created_output input_coin_name c.args)
        (get_or_empty (value ConditionOpcode.create_coin) conditions_dict)

-- the body of the loop of `hash_key_pairs_for_conditions_dict`, after the opcode
unfoldable pub hash_key_pair : List PyVal → Res AggsigPair
unfolding bytes_of
hash_key_pair (public_key ∷ message_hash ∷ []) = do
  pk ← bytes_of public_key
  mh ← bytes_of message_hash
  aggsig_pair pk mh
hash_key_pair [] = raise assertion_error
hash_key_pair (a ∷ []) = raise assertion_error
hash_key_pair (a ∷ b ∷ c ∷ ds) = raise assertion_error

unfoldable pub hash_key_pairs_for_conditions_dict : ConditionsDict → Res (List AggsigPair)
unfolding hash_key_pair
hash_key_pairs_for_conditions_dict conditions_dict =
    map_res (λ (c : Condition). hash_key_pair c.args)
      (get_or_empty (value ConditionOpcode.agg_sig) conditions_dict)

module _ (x : Externals) where
  unfoldable pub hash_key_pairs_for_solution : SExp → Res (List AggsigPair)
  hash_key_pairs_for_solution solution = do
    d ← conditions_dict_for_solution x solution
    hash_key_pairs_for_conditions_dict d

  -- the loop of `validate_spend_bundle_signature`
  unfoldable pub hash_key_pairs_for_solutions : List CoinSolution → Res (List AggsigPair)
  hash_key_pairs_for_solutions [] = ok []
  hash_key_pairs_for_solutions (s ∷ ss) = do
    pairs ← hash_key_pairs_for_solution s.solution
    more ← hash_key_pairs_for_solutions ss
    ok (pairs ++ more)

  unfoldable pub validate_spend_bundle_signature : SpendBundle → Res Bool
  unfolding hash_key_pairs_for_solutions
  validate_spend_bundle_signature spend_bundle = do
    hash_key_pairs ← hash_key_pairs_for_solutions spend_bundle.coin_solutions
    validate x spend_bundle.aggregated_signature hash_key_pairs
