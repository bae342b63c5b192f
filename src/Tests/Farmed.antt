-- ===== src/Tests/Farmed.antt =====
-- The theorems about farming, the pool and the wallet at concrete inputs.
use ledger_sim.Tests.Block
use ledger_sim.Prelude.{◌≡◌, refl, none, some, List, [], ◌∷◌, replicate, map, elem, bytes_eq}
use ledger_sim.Prelude.Int.{pos, ◌+ℤ◌, ◌-ℤ◌, sum_ℤ}
use ledger_sim.Errors.{ok, raise}
use ledger_sim.Externals.{atom}
use ledger_sim.Hashable.Coin.{
  Coin, new_coin, coin_eq, coin_bytes, coin_from_bytes, std_hash, name, coin_obj,
}
use ledger_sim.Hashable.Eor.{zero, EorSignature, public_key, signature_codec}
use ledger_sim.Hashable.Blocks.{
  Body, Header, header, bare, body_obj, ProofOfSpace, held, header_codec, header_obj,
  proof_of_space_obj, body_hash,
}
use ledger_sim.Storage.RamDb.{
  hash_preimage, add_preimage, unspent_for_coin_name, set_unspent_for_coin_name, ram_unspent_db,
}
use ledger_sim.Validation.AcceptBlock.{
  count_in, raise_if_repeated, no_repeats, is_added, subtract_all, add_all, check_amounts,
  check_puzzle_hashes, check_unspent, created_coins, store_coins, fetch_coins,
  build_coin_to_unspent, check_removal, check_solutions, unknown_unless_consensus, spent_coins,
  unspents, context_for, check_spends, accept_body, accept_new_block,
}
use ledger_sim.Validation.ChainView.{tip_of}
use ledger_sim.Validation.AcceptBlock.Exact.{additions_of, removals_of}
use ledger_sim.Farming.Bundles.{fees-aggregate_bundles}
use ledger_sim.Hashable.SpendBundle.{aggregate_bundles, all_coin_solutions}
use ledger_sim.Hashable.BlsSignature.{aggregate, aggregate_nonzero, nonzero}
use ledger_sim.Errors.{map_res}
use ledger_sim.Tests.Toy.{toy, list_sexp, toy_lists, toy_sha256}
use ledger_sim.Prelude.Dict.{lookup, insert}
use ledger_sim.Validation.Consensus.{
  bytes_of, conditions_for_solution, conditions_dict_for_solution, created_output,
  created_outputs_for_conditions_dict, hash_key_pair, hash_key_pairs_for_conditions_dict,
  validate_spend_bundle_signature, hash_key_pairs_for_solutions, hash_key_pairs_for_solution,
}
use ledger_sim.Validation.NamePuzzleConditions.{
  Npc, named_solution, on_eval_error, name_puzzle_conditions, npc_iter, name_puzzle_conditions_list,
}
use ledger_sim.Validation.Conditions.{
  condition_of_items, parse_sexp_to_condition, parse_iter, parse_sexp_to_conditions, bytes_lt,
  insert_opcode, sorted_opcodes, empty_lists, append_condition, append_conditions,
  conditions_by_opcode,
}
use ledger_sim.Validation.CheckConditions.{
  first_of_args, argument, invalid_on_value_error, all_consumed, assert_coin_consumed, is_name,
  assert_my_coin_id, int_of, assert_block_index_exceeds, unspent_of, expected_index,
  assert_block_age_exceeds, assert_time_exceeds, check_condition, check_conditions_dict,
}
use ledger_sim.Hashable.Program.{listp, first, rest, tree_hash, run}
use ledger_sim.Hashable.BlsSignature.{aggsig_pair, or_false, validate}
use ledger_sim.Storage.Overlay.{overlay}
use ledger_sim.Atoms.HashPointer.{checked_preimage, obj}
use ledger_sim.Atoms.SizedBytes.{sized, sized_bytes}
use ledger_sim.Atoms.BigEndian.{big_endian}
use ledger_sim.Atoms.Ints.{uint, struct_stream}
use ledger_sim.Hashable.SpendBundle.{SpendBundle, removals}
use ledger_sim.Validation.AcceptBlock.Parts.{amounts_out}
use ledger_sim.Validation.HeaderSignature.{check_header_signature}
use ledger_sim.Wallet.Deltas.{
  additions_for_solution, additions_for_solutions, bundle_additions, fees, additions_for_body,
  removals_for_body,
}
use ledger_sim.Wallet.Deltas.Accepted.{accept_new_block-deltas}
use ledger_sim.Farming.{best_solution_program, farm_body, index_as_hash, sign_header}
use ledger_sim.Farming.Spends.{best_solution_program_spends, farm_body-balances}
use ledger_sim.Farming.Signing.{check_header_signature-sign_header}
use ledger_sim.Pool.{create_coinbase_coin}
use ledger_sim.Tests.Block.{
  old_coin, old_name, coinbase, paid, body, block, genesis, heap, view, tip, other_tip, puzzle,
  payee, block_accepted,
}

-- the bundle that the block was made from
abbrev pub bundle : SpendBundle
bundle = record {
  coin_solutions = record { coin = old_coin; solution = list_sexp (puzzle ∷ atom [] ∷ []) } ∷ [];
  aggregated_signature = body.aggregated_signature;
}

bundle_creates : bundle_additions toy bundle ≡ ok (paid ∷ [])
unfolding bundle_additions additions_for_solutions additions_for_solution elem bytes_eq lookup
    insert count_in raise_if_repeated no_repeats is_added subtract_all add_all check_amounts
    check_puzzle_hashes check_unspent created_coins store_coins fetch_coins build_coin_to_unspent
    check_removal check_solutions unknown_unless_consensus spent_coins unspents context_for
    check_spends accept_body accept_new_block bytes_of conditions_for_solution
    conditions_dict_for_solution created_output created_outputs_for_conditions_dict hash_key_pair
    hash_key_pairs_for_conditions_dict named_solution on_eval_error name_puzzle_conditions npc_iter
    name_puzzle_conditions_list condition_of_items parse_sexp_to_condition parse_iter
    parse_sexp_to_conditions bytes_lt insert_opcode sorted_opcodes empty_lists append_condition
    append_conditions conditions_by_opcode first_of_args argument invalid_on_value_error
    all_consumed assert_coin_consumed is_name assert_my_coin_id int_of assert_block_index_exceeds
    unspent_of expected_index assert_block_age_exceeds assert_time_exceeds check_condition
    check_conditions_dict listp first rest tree_hash run new_coin coin_eq coin_bytes coin_from_bytes
    std_hash name coin_obj aggsig_pair or_false validate body_obj hash_preimage add_preimage
    unspent_for_coin_name set_unspent_for_coin_name ram_unspent_db overlay checked_preimage obj
    sized old_name paid tip old_coin tip_of ◌+ℤ◌ ◌-ℤ◌
bundle_creates = refl

best_solution_program_spends_example :
    (npcs : List Npc) × (name_puzzle_conditions_list toy (best_solution_program toy bundle)
      ≡ ok npcs)
    × (created_coins toy npcs ≡ ok (paid ∷ []))
    × (removals_of npcs ≡ map (name toy) (removals bundle))
best_solution_program_spends_example =
    best_solution_program_spends toy toy_lists (λ b. refl) bundle (paid ∷ [])
      ((puzzle, atom [], refl), tt) bundle_creates

-- the body that the farmer makes from it
abbrev farmed_body : Body
farmed_body = record {
  coinbase_signature = body.coinbase_signature;
  coinbase_coin = coinbase;
  fees_coin = record { parent_coin_info = big_endian 32 4; puzzle_hash = payee; amount = pos 1 };
  solution_program = best_solution_program toy bundle;
  program_cost = 0;
  aggregated_signature = body.aggregated_signature;
}

bundle_farmed : farm_body toy 4 bundle coinbase body.coinbase_signature payee ≡ ok farmed_body
unfolding farm_body index_as_hash fees removals sum_ℤ big_endian validate_spend_bundle_signature
    hash_key_pairs_for_solutions hash_key_pairs_for_solution bundle_additions
    additions_for_solutions additions_for_solution elem bytes_eq lookup insert count_in
    raise_if_repeated no_repeats is_added subtract_all add_all check_amounts check_puzzle_hashes
    check_unspent created_coins store_coins fetch_coins build_coin_to_unspent check_removal
    check_solutions unknown_unless_consensus spent_coins unspents context_for check_spends
    accept_body accept_new_block bytes_of conditions_for_solution conditions_dict_for_solution
    created_output created_outputs_for_conditions_dict hash_key_pair
    hash_key_pairs_for_conditions_dict named_solution on_eval_error name_puzzle_conditions npc_iter
    name_puzzle_conditions_list condition_of_items parse_sexp_to_condition parse_iter
    parse_sexp_to_conditions bytes_lt insert_opcode sorted_opcodes empty_lists append_condition
    append_conditions conditions_by_opcode first_of_args argument invalid_on_value_error
    all_consumed assert_coin_consumed is_name assert_my_coin_id int_of assert_block_index_exceeds
    unspent_of expected_index assert_block_age_exceeds assert_time_exceeds check_condition
    check_conditions_dict listp first rest tree_hash run new_coin coin_eq coin_bytes coin_from_bytes
    std_hash name coin_obj aggsig_pair or_false validate body_obj hash_preimage add_preimage
    unspent_for_coin_name set_unspent_for_coin_name ram_unspent_db overlay checked_preimage obj
    sized old_name paid tip old_coin tip_of ◌+ℤ◌ ◌-ℤ◌
bundle_farmed = refl

farm_body-balances_example :
    amounts_out (additions_of farmed_body (paid ∷ []))
    ≡ amounts_out (removals bundle) +ℤ coinbase.amount
farm_body-balances_example =
    farm_body-balances toy 4 bundle coinbase body.coinbase_signature payee (paid ∷ []) farmed_body
      bundle_creates bundle_farmed

abbrev space : ProofOfSpace
space = record { pool_public_key = replicate 48 0; plot_public_key = toy.hash256 (4 ∷ []) }

abbrev farmed : Header
farmed =
    header (bare genesis) zero 1000 (record { hash = genesis; held = some space })
      (record { hash = genesis; held = some body }) (replicate 32 0)

abbrev signature : EorSignature
unfolding sign_header
signature = elim (sign_header toy farmed (toy.hash256 (4 ∷ []))) [ ok s ↦ s | raise e ↦ zero ]

signature_made : sign_header toy farmed (toy.hash256 (4 ∷ [])) ≡ ok signature
unfolding signature header_codec sized_bytes sized signature_codec uint struct_stream public_key
    bytes_eq
signature_made = refl

check_header_signature-sign_header_example :
    check_header_signature toy (λ h. none) (held genesis farmed) signature ≡ ok tt
unfolding header_obj proof_of_space_obj obj
check_header_signature-sign_header_example =
    check_header_signature-sign_header toy (λ h. none) (held genesis farmed) farmed space signature
      toy_sha256 refl refl signature_made

abbrev reward_coin : Coin
reward_coin = record { parent_coin_info = big_endian 32 4; puzzle_hash = payee; amount = pos 50 }

reward_made : create_coinbase_coin 4 payee (pos 50) ≡ ok reward_coin
unfolding create_coinbase_coin index_as_hash big_endian new_coin sized
reward_made = refl

accept_new_block-deltas_example :
    (b : Body) × (body_obj toy (hash_preimage (heap 0)) (body_hash block) ≡ ok (some b))
    × (additions_for_body toy b ≡ ok (coinbase ∷ Block.fees ∷ paid ∷ []))
    × (removals_for_body toy b ≡ ok (old_name ∷ []))
accept_new_block-deltas_example =
    accept_new_block-deltas toy tip (hash_preimage (heap 0)) (pos 50) 2000 block
      (coinbase ∷ Block.fees ∷ paid ∷ []) (old_name ∷ []) block_accepted

-- a bundle that pays nothing
abbrev empty_bundle : SpendBundle
empty_bundle = record {
  coin_solutions = [];
  aggregated_signature = record { sig = replicate 96 0 };
}

fees_of_both : map_res (fees toy) (bundle ∷ empty_bundle ∷ []) ≡ ok (pos 1 ∷ pos 0 ∷ [])
unfolding farm_body index_as_hash fees removals sum_ℤ big_endian validate_spend_bundle_signature
    hash_key_pairs_for_solutions hash_key_pairs_for_solution bundle_additions
    additions_for_solutions additions_for_solution elem bytes_eq lookup insert count_in
    raise_if_repeated no_repeats is_added subtract_all add_all check_amounts check_puzzle_hashes
    check_unspent created_coins store_coins fetch_coins build_coin_to_unspent check_removal
    check_solutions unknown_unless_consensus spent_coins unspents context_for check_spends
    accept_body accept_new_block bytes_of conditions_for_solution conditions_dict_for_solution
    created_output created_outputs_for_conditions_dict hash_key_pair
    hash_key_pairs_for_conditions_dict named_solution on_eval_error name_puzzle_conditions npc_iter
    name_puzzle_conditions_list condition_of_items parse_sexp_to_condition parse_iter
    parse_sexp_to_conditions bytes_lt insert_opcode sorted_opcodes empty_lists append_condition
    append_conditions conditions_by_opcode first_of_args argument invalid_on_value_error
    all_consumed assert_coin_consumed is_name assert_my_coin_id int_of assert_block_index_exceeds
    unspent_of expected_index assert_block_age_exceeds assert_time_exceeds check_condition
    check_conditions_dict listp first rest tree_hash run new_coin coin_eq coin_bytes coin_from_bytes
    std_hash name coin_obj aggsig_pair or_false validate body_obj hash_preimage add_preimage
    unspent_for_coin_name set_unspent_for_coin_name ram_unspent_db overlay checked_preimage obj
    sized old_name paid tip old_coin tip_of ◌+ℤ◌ ◌-ℤ◌
fees_of_both = refl

bundles_aggregated : aggregate_bundles toy (bundle ∷ empty_bundle ∷ []) ≡ ok bundle
unfolding aggregate_bundles all_coin_solutions aggregate aggregate_nonzero nonzero farm_body
    index_as_hash fees removals sum_ℤ big_endian validate_spend_bundle_signature
    hash_key_pairs_for_solutions hash_key_pairs_for_solution bundle_additions
    additions_for_solutions additions_for_solution elem bytes_eq lookup insert count_in
    raise_if_repeated no_repeats is_added subtract_all add_all check_amounts check_puzzle_hashes
    check_unspent created_coins store_coins fetch_coins build_coin_to_unspent check_removal
    check_solutions unknown_unless_consensus spent_coins unspents context_for check_spends
    accept_body accept_new_block bytes_of conditions_for_solution conditions_dict_for_solution
    created_output created_outputs_for_conditions_dict hash_key_pair
    hash_key_pairs_for_conditions_dict named_solution on_eval_error name_puzzle_conditions npc_iter
    name_puzzle_conditions_list condition_of_items parse_sexp_to_condition parse_iter
    parse_sexp_to_conditions bytes_lt insert_opcode sorted_opcodes empty_lists append_condition
    append_conditions conditions_by_opcode first_of_args argument invalid_on_value_error
    all_consumed assert_coin_consumed is_name assert_my_coin_id int_of assert_block_index_exceeds
    unspent_of expected_index assert_block_age_exceeds assert_time_exceeds check_condition
    check_conditions_dict listp first rest tree_hash run new_coin coin_eq coin_bytes coin_from_bytes
    std_hash name coin_obj aggsig_pair or_false validate body_obj hash_preimage add_preimage
    unspent_for_coin_name set_unspent_for_coin_name ram_unspent_db overlay checked_preimage obj
    sized old_name paid tip old_coin tip_of ◌+ℤ◌ ◌-ℤ◌
bundles_aggregated = refl

fees-aggregate_bundles_example : fees toy bundle ≡ ok (sum_ℤ (pos 1 ∷ pos 0 ∷ []))
fees-aggregate_bundles_example =
    fees-aggregate_bundles toy (bundle ∷ empty_bundle ∷ []) (pos 1 ∷ pos 0 ∷ []) bundle fees_of_both
      bundles_aggregated
