-- ===== src/Tests/Refused.antt =====
-- The block where the chain has seen the coin spent already.
use ledger_sim.Prelude.{◌≡◌, refl, none, some, [], ◌∷◌, bytes_eq, elem, if◌then◌else◌, arith}
use ledger_sim.Prelude.Int.{pos}
use ledger_sim.Errors.{ok, raise, fail, double_spend}
use ledger_sim.Atoms.HashPointer.{obj}
use ledger_sim.Hashable.Coin.{coin_eq}
use ledger_sim.Hashable.Blocks.{body_obj}
use ledger_sim.Storage.RamDb.{hash_preimage}
use ledger_sim.Validation.AcceptBlock.{Cpc, Tip, fetch_coins, is_added, accept_new_block}
use ledger_sim.Validation.AcceptBlock.Exact.{coin_source}
use ledger_sim.Validation.AcceptBlock.Breaks.{IsRead, IsFetched, spent_coin}
use ledger_sim.Validation.AcceptBlock.Refused.{accept_new_block-refused}
use ledger_sim.Tests.Toy.{toy}
use ledger_sim.Tests.Block.{
  old_coin, old_name, coinbase, fees, paid, body, block, genesis, heap, npc, block_npcs,
  block_creates, additions_differ, old_coin_found,
}

-- the chain's tip, with the coin spent in the block before
abbrev spent_tip : Tip
spent_tip = record {
  tip_hash = genesis;
  tip_index = 3;
  unspent_db = λ n.
      if bytes_eq n old_name
      then some (record { confirmed_block_index = 2; spent_block_index = 3 })
      else none;
}

abbrev spend : Cpc
spend = record {
  coin = old_coin;
  puzzle_hash = old_coin.puzzle_hash;
  conditions_dict = npc.conditions_dict;
}

block_fetched :
    fetch_coins toy
      (coin_source toy (hash_preimage (heap 0)) (coinbase ∷ fees ∷ paid ∷ []))
      (npc ∷ [])
    ≡ ok (spend ∷ [])
unfolding fetch_coins npc
block_fetched = rw old_coin_found refl

block-IsRead : IsRead toy spent_tip (hash_preimage (heap 0)) block body (npc ∷ []) (paid ∷ [])
unfolding body_obj obj
block-IsRead = record { extends = refl; found = refl; spends = block_npcs; creates = block_creates }

block-IsFetched :
    IsFetched toy spent_tip (hash_preimage (heap 0)) block body (npc ∷ []) (paid ∷ []) (spend ∷ [])
unfolding npc old_name paid elem
block-IsFetched = record {
  read = block-IsRead;
  amounts_fit = (omega arith, (omega arith, (omega arith, tt)));
  outputs_differ = additions_differ;
  removals_differ = (refl, tt);
  fetched = block_fetched;
}

accept_new_block-refused_example :
    accept_new_block toy spent_tip (hash_preimage (heap 0)) (pos 50) 2000 block
    ≡ raise (fail double_spend)
unfolding is_added coin_eq old_name paid bytes_eq old_coin
accept_new_block-refused_example =
    accept_new_block-refused toy spent_tip (hash_preimage (heap 0)) (pos 50) 2000 block double_spend
      (spent_coin [] spend [] (record { confirmed_block_index = 2; spent_block_index = 3 })
        block-IsFetched (refl, tt) tt refl refl
        (record {
          confirmed = omega arith;
          not_later = omega arith;
          was_spent = omega arith;
          spent_before = omega arith;
        }))
