-- ===== src/Tests/Running.antt =====
-- The ledger's theorems at a ledger that farms a block.
use ledger_sim.Prelude.{◌≡◌, ◌≢◌, ◌⊎◌, refl, some, Option, [], ◌∷◌, replicate}
use ledger_sim.Errors.{Res, ok}
use ledger_sim.Storage.Heap.{Heap}
use ledger_sim.Ledger.Reach.{Reaches, farms, starts, then, Reaches-IsValid, get_all_blocks-reached}
use ledger_sim.Ledger.Invariant.{IsValid}
use ledger_sim.Ledger.Listing.{get_all_blocks}
use ledger_sim.Ledger.Listing.Chain.{bodies}
use ledger_sim.Ledger.Calls.{IsRefused, IsAdvanced, IsKept, next_block_lem, push_tx_lem}
use ledger_sim.Tests.Block.{heap, view}
use ledger_sim.Tests.Farmed.{bundle}
use ledger_sim.Tests.Toy.{toy, toy_sha256}
use ledger_sim.Atoms.BigEndian.{big_endian}
use ledger_sim.Atoms.Codec.{field, streamable, from_bytes}
use ledger_sim.Atoms.HashPointer.{checked_preimage, pointer_to, obj}
use ledger_sim.Atoms.Ints.{pack, struct_stream, uint}
use ledger_sim.Atoms.SizedBytes.{sized, sized_bytes}
use ledger_sim.Farming.{
  index_as_hash, sign_header, entries, best_solution_program, collect_best_bundle, farm_body,
  farm_new_block,
}
use ledger_sim.Hashable.Blocks.{
  proof_of_space_codec, body_codec, header_codec, header_hash, header_obj, body_obj,
  proof_of_space_obj, Header, Body,
}
use ledger_sim.Hashable.BlsSignature.{
  bls_codec, aggsig_pair, nonzero, aggregate_nonzero, aggregate, or_false, validate,
}
use ledger_sim.Hashable.Coin.{
  new_coin, coin_eq, coin_bytes, coin_from_bytes, std_hash, name, coin_obj, coin_codec,
}
use ledger_sim.Hashable.Eor.{
  eor_bytes32, eor_pairs, validate as eor_validate, sign, public_key, signature_codec,
}
use ledger_sim.Hashable.Program.{listp, first, rest, tree_hash, run, program_codec}
use ledger_sim.Hashable.SpendBundle.{all_coin_solutions, aggregate_bundles, removals}
use ledger_sim.Ledger.{
  new_ledger, store_block, extend_with, new_chain_view, tip_block, advance, next_block, push_tx,
  Ledger, genesis_hash,
}
use ledger_sim.Ledger.Clock.{bits, round_half_even, whole_seconds, timestamp_of}
use ledger_sim.Ledger.Farm.{farm}
use ledger_sim.Pool.{
  create_coinbase_coin, pool_lookup, get_pool_public_key, sign_hash, signature_for_coinbase,
  sign_coinbase_coin, create_coinbase_coin_and_signature,
}
use ledger_sim.Prelude.Dict.{lookup, insert}
use ledger_sim.Prelude.Int.{◌+ℤ◌, ◌-ℤ◌, sum_ℤ}
use ledger_sim.Prelude.{elem, bytes_eq}
use ledger_sim.Storage.Overlay.{overlay}
use ledger_sim.Storage.RamDb.{
  hash_preimage, add_preimage, unspent_for_coin_name, set_unspent_for_coin_name, ram_unspent_db,
  empty,
}
use ledger_sim.Validation.AcceptBlock.{
  count_in, raise_if_repeated, no_repeats, is_added, subtract_all, add_all, check_amounts,
  check_puzzle_hashes, check_unspent, created_coins, store_coins, fetch_coins,
  build_coin_to_unspent, check_removal, check_solutions, unknown_unless_consensus, spent_coins,
  unspents, context_for, check_spends, accept_body, accept_new_block,
}
use ledger_sim.Validation.ChainView.{
  for_genesis_hash, tip_of, apply_additions, apply_removals, apply_deltas, extended, adopt,
  augment_chain_view,
}
use ledger_sim.Validation.CheckConditions.{
  first_of_args, argument, invalid_on_value_error, all_consumed, assert_coin_consumed, is_name,
  assert_my_coin_id, int_of, assert_block_index_exceeds, unspent_of, expected_index,
  assert_block_age_exceeds, assert_time_exceeds, check_condition, check_conditions_dict,
}
use ledger_sim.Validation.Conditions.{
  condition_of_items, parse_sexp_to_condition, parse_iter, parse_sexp_to_conditions, bytes_lt,
  insert_opcode, sorted_opcodes, empty_lists, append_condition, append_conditions,
  conditions_by_opcode,
}
use ledger_sim.Validation.Consensus.{
  bytes_of, conditions_for_solution, conditions_dict_for_solution, created_output,
  created_outputs_for_conditions_dict, hash_key_pair, hash_key_pairs_for_conditions_dict,
  hash_key_pairs_for_solution, hash_key_pairs_for_solutions, validate_spend_bundle_signature,
}
use ledger_sim.Validation.HeaderSignature.{check_header_signature, check_tip_signature}
use ledger_sim.Validation.NamePuzzleConditions.{
  named_solution, on_eval_error, name_puzzle_conditions, npc_iter, name_puzzle_conditions_list,
}
use ledger_sim.Wallet.Deltas.{
  additions_for_solution, additions_for_solutions, bundle_additions, fees,
}

abbrev nothing_stored : Heap
nothing_stored r = empty

abbrev farmed_once : Res (Header × Option Body) × Ledger × Heap
farmed_once = next_block toy (replicate 32 5) (replicate 32 6) (new_ledger 0) nothing_stored

one_block : farmed_once.1.chain_view.tip_index ≡ 1
unfolding big_endian field streamable from_bytes checked_preimage pointer_to obj pack struct_stream
    uint sized sized_bytes index_as_hash sign_header entries best_solution_program
    collect_best_bundle farm_body farm_new_block proof_of_space_codec body_codec header_codec
    header_hash header_obj body_obj proof_of_space_obj bls_codec aggsig_pair nonzero
    aggregate_nonzero aggregate or_false validate new_coin coin_eq coin_bytes coin_from_bytes
    std_hash name coin_obj coin_codec eor_bytes32 eor_pairs eor_validate sign public_key
    signature_codec listp first rest tree_hash run program_codec all_coin_solutions
    aggregate_bundles removals new_ledger store_block extend_with new_chain_view tip_block advance
    next_block farm timestamp_of whole_seconds bits round_half_even create_coinbase_coin pool_lookup
    get_pool_public_key sign_hash signature_for_coinbase sign_coinbase_coin
    create_coinbase_coin_and_signature lookup insert ◌+ℤ◌ ◌-ℤ◌ sum_ℤ elem overlay hash_preimage
    add_preimage unspent_for_coin_name set_unspent_for_coin_name ram_unspent_db count_in
    raise_if_repeated no_repeats is_added subtract_all add_all check_amounts check_puzzle_hashes
    check_unspent created_coins store_coins fetch_coins build_coin_to_unspent check_removal
    check_solutions unknown_unless_consensus spent_coins unspents context_for check_spends
    accept_body accept_new_block for_genesis_hash tip_of apply_additions apply_removals apply_deltas
    extended adopt augment_chain_view first_of_args argument invalid_on_value_error all_consumed
    assert_coin_consumed is_name assert_my_coin_id int_of assert_block_index_exceeds unspent_of
    expected_index assert_block_age_exceeds assert_time_exceeds check_condition
    check_conditions_dict condition_of_items parse_sexp_to_condition parse_iter
    parse_sexp_to_conditions bytes_lt insert_opcode sorted_opcodes empty_lists append_condition
    append_conditions conditions_by_opcode bytes_of conditions_for_solution
    conditions_dict_for_solution created_output created_outputs_for_conditions_dict hash_key_pair
    hash_key_pairs_for_conditions_dict hash_key_pairs_for_solution hash_key_pairs_for_solutions
    validate_spend_bundle_signature check_header_signature check_tip_signature named_solution
    on_eval_error name_puzzle_conditions npc_iter name_puzzle_conditions_list additions_for_solution
    additions_for_solutions bundle_additions fees bytes_eq
one_block = refl

key_differs : toy.hash256 (4 ∷ []) ≢ genesis_hash
key_differs = λ e. cc

reached : Reaches toy farmed_once.1 farmed_once.2
reached =
    then (new_ledger 0) nothing_stored farmed_once.1 farmed_once.2 (starts 0 nothing_stored refl)
      (farms (replicate 32 5) (replicate 32 6) (new_ledger 0) nothing_stored)

Reaches-IsValid_example : IsValid toy farmed_once.1 farmed_once.2
Reaches-IsValid_example =
    Reaches-IsValid toy toy_sha256 key_differs farmed_once.1 farmed_once.2 reached

get_all_blocks-reached_example :
    get_all_blocks toy
      (hash_preimage (farmed_once.2 farmed_once.1.storage))
      farmed_once.1.chain_view.tip_index
      farmed_once.1.chain_view.tip_hash
    ≡ some (ok (bodies farmed_once.1.chain_view.tip_hash))
get_all_blocks-reached_example =
    get_all_blocks-reached toy toy_sha256 key_differs farmed_once.1 farmed_once.2 0 reached
      one_block

next_block_lem_example :
    IsRefused (new_ledger 0) farmed_once
    ⊎ IsAdvanced toy (replicate 32 5) (replicate 32 6) (new_ledger 0) nothing_stored farmed_once
unfolding new_ledger
next_block_lem_example =
    next_block_lem toy (new_ledger 0) nothing_stored refl (replicate 32 5) (replicate 32 6)

-- a ledger whose database has the coin that the bundle spends
abbrev funded : Ledger
funded = record { chain_view = view; storage = 0; unspent_db = 0; spend_bundles = []; now = 2000 }

push_tx_lem_example :
    IsRefused funded (push_tx toy bundle funded heap)
    ⊎ IsKept toy bundle funded heap (push_tx toy bundle funded heap)
push_tx_lem_example = push_tx_lem toy funded heap refl bundle
