-- ===== src/Tests/Block.antt =====
-- A block that spends one coin, pays a coin to someone else and leaves a fee of one.
use ledger_sim.Prelude.{
  ◌≡◌, refl, none, some, List, [], ◌∷◌, ◌++◌, Bytes, replicate, if◌then◌else◌, ◌==◌, map,
  IsDistinct,
}
use ledger_sim.Prelude.Int.{pos, ◌+ℤ◌, ◌-ℤ◌}
use ledger_sim.Errors.{ok, raise, fail, does_not_extend}
use ledger_sim.Externals.{SExp, atom, bytes}
use ledger_sim.Hashable.Coin.{Coin}
use ledger_sim.Hashable.Eor.{zero}
use ledger_sim.Hashable.Blocks.{Body, Header, header, bare}
use ledger_sim.Storage.RamDb.{RamDb, empty}
use ledger_sim.Storage.Heap.{Heap}
use ledger_sim.Validation.AcceptBlock.Exact.{coin_source}
use ledger_sim.Validation.AcceptBlock.{Tip}
use ledger_sim.Validation.ChainView.{ChainView, tip_of}
use ledger_sim.Validation.AcceptBlock.Exact.{coin_source}
use ledger_sim.Tests.Toy.{toy, list_sexp}
use ledger_sim.Prelude.{elem, bytes_eq}
use ledger_sim.Prelude.Dict.{lookup, insert}
use ledger_sim.Validation.AcceptBlock.{
  count_in, raise_if_repeated, no_repeats, is_added, subtract_all, add_all, check_amounts,
  check_puzzle_hashes, check_unspent, created_coins, store_coins, fetch_coins,
  build_coin_to_unspent, check_removal, check_solutions, unknown_unless_consensus, spent_coins,
  unspents, context_for, check_spends, accept_body, accept_new_block,
}
use ledger_sim.Validation.Consensus.{
  bytes_of, conditions_for_solution, conditions_dict_for_solution, created_output,
  created_outputs_for_conditions_dict, hash_key_pair, hash_key_pairs_for_conditions_dict,
}
use ledger_sim.Validation.NamePuzzleConditions.{
  Npc, named_solution, on_eval_error, name_puzzle_conditions, npc_iter, name_puzzle_conditions_list,
}
use ledger_sim.Validation.Conditions.{
  Condition, condition_of_items, parse_sexp_to_condition, parse_iter, parse_sexp_to_conditions,
  bytes_lt, insert_opcode, sorted_opcodes, empty_lists, append_condition, append_conditions,
  conditions_by_opcode,
}
use ledger_sim.Validation.CheckConditions.{
  Context, first_of_args, argument, invalid_on_value_error, all_consumed, assert_coin_consumed,
  is_name, assert_my_coin_id, int_of, assert_block_index_exceeds, unspent_of, expected_index,
  assert_block_age_exceeds, assert_time_exceeds, check_condition, check_conditions_dict,
}
use ledger_sim.Hashable.Program.{listp, first, rest, tree_hash, run}
use ledger_sim.Hashable.Coin.{
  new_coin, coin_eq, coin_bytes, coin_from_bytes, std_hash, name, coin_obj,
}
use ledger_sim.Hashable.BlsSignature.{aggsig_pair, or_false, validate}
use ledger_sim.Hashable.Blocks.{body_obj}
use ledger_sim.Storage.RamDb.{
  hash_preimage, add_preimage, unspent_for_coin_name, set_unspent_for_coin_name, ram_unspent_db,
}
use ledger_sim.Storage.Overlay.{overlay}
use ledger_sim.Atoms.HashPointer.{checked_preimage, obj}
use ledger_sim.Atoms.SizedBytes.{sized}

abbrev pub key : Bytes
key = replicate 48 3

abbrev pub message : Bytes
message = replicate 32 4

abbrev pub payee : Bytes
payee = replicate 32 5

abbrev pub puzzle : SExp
puzzle = list_sexp (
    list_sexp (atom (51 ∷ []) ∷ atom payee ∷ atom (9 ∷ []) ∷ [])
    ∷ list_sexp (atom (50 ∷ []) ∷ atom key ∷ atom message ∷ [])
    ∷ list_sexp (atom (55 ∷ []) ∷ atom (2 ∷ []) ∷ [])
    ∷ [])

unfoldable pub old_coin : Coin
unfolding tree_hash
old_coin = record {
  parent_coin_info = replicate 32 1;
  puzzle_hash = tree_hash toy puzzle;
  amount = pos 10;
}

unfoldable pub old_name : Bytes
unfolding name
old_name = name toy old_coin

abbrev pub coinbase : Coin
coinbase = record { parent_coin_info = replicate 32 6; puzzle_hash = payee; amount = pos 50 }

abbrev pub fees : Coin
fees = record { parent_coin_info = replicate 32 7; puzzle_hash = payee; amount = pos 1 }

unfoldable pub paid : Coin
unfolding old_name
paid = record { parent_coin_info = old_name; puzzle_hash = payee; amount = pos 9 }

abbrev pub body : Body
body = record {
  coinbase_signature = record { sig = replicate 96 0 };
  coinbase_coin = coinbase;
  fees_coin = fees;
  solution_program =
      list_sexp (list_sexp (atom old_name ∷ list_sexp (puzzle ∷ atom [] ∷ []) ∷ []) ∷ []);
  program_cost = 1;
  aggregated_signature = record { sig = key ++ (message ++ replicate 16 0) };
}

abbrev pub genesis : Bytes
genesis = replicate 32 8

abbrev pub block : Header
block =
    header (bare genesis) zero 1000 (record { hash = genesis; held = none })
      (record { hash = genesis; held = some body }) (replicate 32 0)

-- a ledger's database, three blocks on
abbrev pub ledger_db : RamDb
unfolding add_preimage set_unspent_for_coin_name
ledger_db =
    set_unspent_for_coin_name old_name (record { confirmed_block_index = 2; spent_block_index = 0 })
      (add_preimage toy (coin_bytes toy old_coin) empty)

abbrev pub heap : Heap
heap r = if r == 0 then ledger_db else empty

abbrev pub view : ChainView
view = record {
  genesis_hash = genesis;
  tip_hash = bare genesis;
  tip_signature = zero;
  tip_index = 3;
  unspent_db = 0;
}

unfoldable pub tip : Tip
unfolding tip_of
tip = tip_of view heap

pub block_accepted :
    accept_new_block toy tip (hash_preimage (heap 0)) (pos 50) 2000 block
    ≡ ok (coinbase ∷ fees ∷ paid ∷ [], old_name ∷ [])
unfolding elem bytes_eq lookup insert count_in raise_if_repeated no_repeats is_added subtract_all
    add_all check_amounts check_puzzle_hashes check_unspent created_coins store_coins fetch_coins
    build_coin_to_unspent check_removal check_solutions unknown_unless_consensus spent_coins
    unspents context_for check_spends accept_body accept_new_block bytes_of conditions_for_solution
    conditions_dict_for_solution created_output created_outputs_for_conditions_dict hash_key_pair
    hash_key_pairs_for_conditions_dict named_solution on_eval_error name_puzzle_conditions npc_iter
    name_puzzle_conditions_list condition_of_items parse_sexp_to_condition parse_iter
    parse_sexp_to_conditions bytes_lt insert_opcode sorted_opcodes empty_lists append_condition
    append_conditions conditions_by_opcode first_of_args argument invalid_on_value_error
    all_consumed assert_coin_consumed is_name assert_my_coin_id int_of assert_block_index_exceeds
    unspent_of expected_index assert_block_age_exceeds assert_time_exceeds check_condition
    check_conditions_dict listp first rest tree_hash run new_coin coin_eq coin_bytes coin_from_bytes
    std_hash name coin_obj aggsig_pair or_false validate body_obj hash_preimage add_preimage
    unspent_for_coin_name set_unspent_for_coin_name ram_unspent_db overlay checked_preimage obj
    sized old_name paid tip ledger_db old_coin tip_of ◌+ℤ◌ ◌-ℤ◌
block_accepted = refl

pub old_coin_found :
    coin_obj toy (coin_source toy (hash_preimage (heap 0)) (coinbase ∷ fees ∷ paid ∷ [])) old_name
    ≡ ok old_coin
unfolding coin_obj coin_from_bytes new_coin sized overlay hash_preimage add_preimage
    unspent_for_coin_name set_unspent_for_coin_name store_coins lookup insert name coin_bytes
    std_hash old_name paid ledger_db old_coin bytes_eq
old_coin_found = refl

-- a tip that the block does not extend
abbrev pub other_view : ChainView
other_view = record {
  genesis_hash = genesis;
  tip_hash = bare payee;
  tip_signature = zero;
  tip_index = 3;
  unspent_db = 0;
}

unfoldable pub other_tip : Tip
unfolding tip_of
other_tip = tip_of other_view heap

pub block_refused :
    accept_new_block toy other_tip (hash_preimage (heap 0)) (pos 50) 2000 block
    ≡ raise (fail does_not_extend)
unfolding other_tip elem bytes_eq lookup insert count_in raise_if_repeated no_repeats is_added
    subtract_all add_all check_amounts check_puzzle_hashes check_unspent created_coins store_coins
    fetch_coins build_coin_to_unspent check_removal check_solutions unknown_unless_consensus
    spent_coins unspents context_for check_spends accept_body accept_new_block bytes_of
    conditions_for_solution conditions_dict_for_solution created_output
    created_outputs_for_conditions_dict hash_key_pair hash_key_pairs_for_conditions_dict
    named_solution on_eval_error name_puzzle_conditions npc_iter name_puzzle_conditions_list
    condition_of_items parse_sexp_to_condition parse_iter parse_sexp_to_conditions bytes_lt
    insert_opcode sorted_opcodes empty_lists append_condition append_conditions conditions_by_opcode
    first_of_args argument invalid_on_value_error all_consumed assert_coin_consumed is_name
    assert_my_coin_id int_of assert_block_index_exceeds unspent_of expected_index
    assert_block_age_exceeds assert_time_exceeds check_condition check_conditions_dict listp first
    rest tree_hash run new_coin coin_eq coin_bytes coin_from_bytes std_hash name coin_obj
    aggsig_pair or_false validate body_obj hash_preimage add_preimage unspent_for_coin_name
    set_unspent_for_coin_name ram_unspent_db overlay checked_preimage obj sized old_name paid tip
    ledger_db old_coin tip_of ◌+ℤ◌ ◌-ℤ◌
block_refused = refl

abbrev pub conditions : List Condition
conditions =
    record { opcode = 55 ∷ []; args = bytes (2 ∷ []) ∷ [] }
    ∷ record { opcode = 51 ∷ []; args = bytes payee ∷ bytes (9 ∷ []) ∷ [] }
    ∷ record { opcode = 52 ∷ []; args = bytes old_name ∷ [] }
    ∷ record { opcode = 55 ∷ []; args = bytes (3 ∷ []) ∷ [] }
    ∷ []

abbrev pub context : Context
context = record {
  block_index = 4;
  removals = old_name ∷ [];
  coin_to_unspent = [];
  creation_time = 2000;
}

pub conditions_pass :
    check_conditions_dict toy old_coin (conditions_by_opcode conditions) context ≡ ok tt
unfolding elem bytes_eq lookup insert count_in raise_if_repeated no_repeats is_added subtract_all
    add_all check_amounts check_puzzle_hashes check_unspent created_coins store_coins fetch_coins
    build_coin_to_unspent check_removal check_solutions unknown_unless_consensus spent_coins
    unspents context_for check_spends accept_body accept_new_block bytes_of conditions_for_solution
    conditions_dict_for_solution created_output created_outputs_for_conditions_dict hash_key_pair
    hash_key_pairs_for_conditions_dict named_solution on_eval_error name_puzzle_conditions npc_iter
    name_puzzle_conditions_list condition_of_items parse_sexp_to_condition parse_iter
    parse_sexp_to_conditions bytes_lt insert_opcode sorted_opcodes empty_lists append_condition
    append_conditions conditions_by_opcode first_of_args argument invalid_on_value_error
    all_consumed assert_coin_consumed is_name assert_my_coin_id int_of assert_block_index_exceeds
    unspent_of expected_index assert_block_age_exceeds assert_time_exceeds check_condition
    check_conditions_dict listp first rest tree_hash run new_coin coin_eq coin_bytes coin_from_bytes
    std_hash name coin_obj aggsig_pair or_false validate body_obj hash_preimage add_preimage
    unspent_for_coin_name set_unspent_for_coin_name ram_unspent_db overlay checked_preimage obj
    sized old_name paid tip ledger_db old_coin tip_of ◌+ℤ◌ ◌-ℤ◌
conditions_pass = refl

-- the block's only spend
unfoldable pub npc : Npc
unfolding conditions_by_opcode
npc = record {
  coin_name = old_name;
  puzzle_hash = old_coin.puzzle_hash;
  conditions_dict = conditions_by_opcode (
      record { opcode = 51 ∷ []; args = bytes payee ∷ bytes (9 ∷ []) ∷ [] }
      ∷ record { opcode = 50 ∷ []; args = bytes key ∷ bytes message ∷ [] }
      ∷ record { opcode = 55 ∷ []; args = bytes (2 ∷ []) ∷ [] }
      ∷ []);
}

pub block_npcs : name_puzzle_conditions_list toy body.solution_program ≡ ok (npc ∷ [])
unfolding npc elem bytes_eq lookup insert count_in raise_if_repeated no_repeats is_added
    subtract_all add_all check_amounts check_puzzle_hashes check_unspent created_coins store_coins
    fetch_coins build_coin_to_unspent check_removal check_solutions unknown_unless_consensus
    spent_coins unspents context_for check_spends accept_body accept_new_block bytes_of
    conditions_for_solution conditions_dict_for_solution created_output
    created_outputs_for_conditions_dict hash_key_pair hash_key_pairs_for_conditions_dict
    named_solution on_eval_error name_puzzle_conditions npc_iter name_puzzle_conditions_list
    condition_of_items parse_sexp_to_condition parse_iter parse_sexp_to_conditions bytes_lt
    insert_opcode sorted_opcodes empty_lists append_condition append_conditions conditions_by_opcode
    first_of_args argument invalid_on_value_error all_consumed assert_coin_consumed is_name
    assert_my_coin_id int_of assert_block_index_exceeds unspent_of expected_index
    assert_block_age_exceeds assert_time_exceeds check_condition check_conditions_dict listp first
    rest tree_hash run new_coin coin_eq coin_bytes coin_from_bytes std_hash name coin_obj
    aggsig_pair or_false validate body_obj hash_preimage add_preimage unspent_for_coin_name
    set_unspent_for_coin_name ram_unspent_db overlay checked_preimage obj sized old_name paid tip
    ledger_db old_coin tip_of ◌+ℤ◌ ◌-ℤ◌
block_npcs = refl

pub block_creates : created_coins toy (npc ∷ []) ≡ ok (paid ∷ [])
unfolding npc elem bytes_eq lookup insert count_in raise_if_repeated no_repeats is_added
    subtract_all add_all check_amounts check_puzzle_hashes check_unspent created_coins store_coins
    fetch_coins build_coin_to_unspent check_removal check_solutions unknown_unless_consensus
    spent_coins unspents context_for check_spends accept_body accept_new_block bytes_of
    conditions_for_solution conditions_dict_for_solution created_output
    created_outputs_for_conditions_dict hash_key_pair hash_key_pairs_for_conditions_dict
    named_solution on_eval_error name_puzzle_conditions npc_iter name_puzzle_conditions_list
    condition_of_items parse_sexp_to_condition parse_iter parse_sexp_to_conditions bytes_lt
    insert_opcode sorted_opcodes empty_lists append_condition append_conditions conditions_by_opcode
    first_of_args argument invalid_on_value_error all_consumed assert_coin_consumed is_name
    assert_my_coin_id int_of assert_block_index_exceeds unspent_of expected_index
    assert_block_age_exceeds assert_time_exceeds check_condition check_conditions_dict listp first
    rest tree_hash run new_coin coin_eq coin_bytes coin_from_bytes std_hash name coin_obj
    aggsig_pair or_false validate body_obj hash_preimage add_preimage unspent_for_coin_name
    set_unspent_for_coin_name ram_unspent_db overlay checked_preimage obj sized old_name paid tip
    ledger_db old_coin tip_of ◌+ℤ◌ ◌-ℤ◌
block_creates = refl

pub additions_differ : IsDistinct (map (name toy) (coinbase ∷ fees ∷ paid ∷ []))
unfolding elem bytes_eq lookup insert count_in raise_if_repeated no_repeats is_added subtract_all
    add_all check_amounts check_puzzle_hashes check_unspent created_coins store_coins fetch_coins
    build_coin_to_unspent check_removal check_solutions unknown_unless_consensus spent_coins
    unspents context_for check_spends accept_body accept_new_block bytes_of conditions_for_solution
    conditions_dict_for_solution created_output created_outputs_for_conditions_dict hash_key_pair
    hash_key_pairs_for_conditions_dict named_solution on_eval_error name_puzzle_conditions npc_iter
    name_puzzle_conditions_list condition_of_items parse_sexp_to_condition parse_iter
    parse_sexp_to_conditions bytes_lt insert_opcode sorted_opcodes empty_lists append_condition
    append_conditions conditions_by_opcode first_of_args argument invalid_on_value_error
    all_consumed assert_coin_consumed is_name assert_my_coin_id int_of assert_block_index_exceeds
    unspent_of expected_index assert_block_age_exceeds assert_time_exceeds check_condition
    check_conditions_dict listp first rest tree_hash run new_coin coin_eq coin_bytes coin_from_bytes
    std_hash name coin_obj aggsig_pair or_false validate body_obj hash_preimage add_preimage
    unspent_for_coin_name set_unspent_for_coin_name ram_unspent_db overlay checked_preimage obj
    sized old_name paid tip ledger_db old_coin tip_of ◌+ℤ◌ ◌-ℤ◌
additions_differ = (refl, (refl, (refl, tt)))

-- a storage that has lost the coin
pub coin_lost : coin_source toy (λ h. none) (coinbase ∷ fees ∷ paid ∷ []) old_name ≡ none
unfolding elem bytes_eq lookup insert count_in raise_if_repeated no_repeats is_added subtract_all
    add_all check_amounts check_puzzle_hashes check_unspent created_coins store_coins fetch_coins
    build_coin_to_unspent check_removal check_solutions unknown_unless_consensus spent_coins
    unspents context_for check_spends accept_body accept_new_block bytes_of conditions_for_solution
    conditions_dict_for_solution created_output created_outputs_for_conditions_dict hash_key_pair
    hash_key_pairs_for_conditions_dict named_solution on_eval_error name_puzzle_conditions npc_iter
    name_puzzle_conditions_list condition_of_items parse_sexp_to_condition parse_iter
    parse_sexp_to_conditions bytes_lt insert_opcode sorted_opcodes empty_lists append_condition
    append_conditions conditions_by_opcode first_of_args argument invalid_on_value_error
    all_consumed assert_coin_consumed is_name assert_my_coin_id int_of assert_block_index_exceeds
    unspent_of expected_index assert_block_age_exceeds assert_time_exceeds check_condition
    check_conditions_dict listp first rest tree_hash run new_coin coin_eq coin_bytes coin_from_bytes
    std_hash name coin_obj aggsig_pair or_false validate body_obj hash_preimage add_preimage
    unspent_for_coin_name set_unspent_for_coin_name ram_unspent_db overlay checked_preimage obj
    sized old_name paid tip ledger_db old_coin tip_of ◌+ℤ◌ ◌-ℤ◌
coin_lost = refl

pub old_coin_known :
    unspent_for_coin_name (heap 0) old_name
    ≡ some (record { confirmed_block_index = 2; spent_block_index = 0 })
unfolding elem bytes_eq lookup insert count_in raise_if_repeated no_repeats is_added subtract_all
    add_all check_amounts check_puzzle_hashes check_unspent created_coins store_coins fetch_coins
    build_coin_to_unspent check_removal check_solutions unknown_unless_consensus spent_coins
    unspents context_for check_spends accept_body accept_new_block bytes_of conditions_for_solution
    conditions_dict_for_solution created_output created_outputs_for_conditions_dict hash_key_pair
    hash_key_pairs_for_conditions_dict named_solution on_eval_error name_puzzle_conditions npc_iter
    name_puzzle_conditions_list condition_of_items parse_sexp_to_condition parse_iter
    parse_sexp_to_conditions bytes_lt insert_opcode sorted_opcodes empty_lists append_condition
    append_conditions conditions_by_opcode first_of_args argument invalid_on_value_error
    all_consumed assert_coin_consumed is_name assert_my_coin_id int_of assert_block_index_exceeds
    unspent_of expected_index assert_block_age_exceeds assert_time_exceeds check_condition
    check_conditions_dict listp first rest tree_hash run new_coin coin_eq coin_bytes coin_from_bytes
    std_hash name coin_obj aggsig_pair or_false validate body_obj hash_preimage add_preimage
    unspent_for_coin_name set_unspent_for_coin_name ram_unspent_db overlay checked_preimage obj
    sized old_name paid tip ledger_db old_coin tip_of ◌+ℤ◌ ◌-ℤ◌
old_coin_known = refl
