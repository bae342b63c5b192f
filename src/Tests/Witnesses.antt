-- ===== src/Tests/Witnesses.antt =====
-- The theorems about blocks, conditions and chain views at concrete inputs.
use ledger_sim.Prelude.{◌≡◌, refl, ◌↔◌, inr, none, some, List, [], ◌∷◌, Bytes, All, elem, arith}
use ledger_sim.Prelude.Int.{pos}
use ledger_sim.Errors.{◌>>◌, ok, raise, fail, unknown}
use ledger_sim.Atoms.HashPointer.{obj}
use ledger_sim.Hashable.Coin.{Coin}
use ledger_sim.Hashable.Eor.{zero}
use ledger_sim.Hashable.Blocks.{Body, hash_of, previous_hash, body_hash, body_obj}
use ledger_sim.Storage.RamDb.{hash_preimage, unspent_for_coin_name}
use ledger_sim.Validation.Conditions.{conditions_by_opcode}
use ledger_sim.Validation.Conditions.ByOpcode.{
  IsSorted, has_opcode, with_opcode, conditions_by_opcode_lem,
}
use ledger_sim.Prelude.Dict.{keys, lookup}
use ledger_sim.Prelude.{if◌then◌else◌}
use ledger_sim.Validation.CheckConditions.{check_condition, check_conditions_dict}
use ledger_sim.Validation.CheckConditions.Soundness.{Holds}
use ledger_sim.Validation.CheckConditions.Grouped.{
  check_conditions_dict_iff, check_conditions_dict_sound,
}
use ledger_sim.Validation.AcceptBlock.{Cpc, accept_new_block, fetch_coins}
use ledger_sim.Validation.AcceptBlock.Exact.{BodyAccepted}
use ledger_sim.Validation.AcceptBlock.Rules.{accept_new_block_iff, accept_new_block-missing_coin}
use ledger_sim.Validation.ChainView.{tip_of, augment_chain_view}
use ledger_sim.Validation.ChainView.Deltas.{marked}
use ledger_sim.Validation.ChainView.Augment.{augment_chain_view-keeps, augment_chain_view-marks}
use ledger_sim.Tests.Toy.{toy}
use ledger_sim.Tests.Block.{
  old_coin, old_name, coinbase, fees, paid, body, block, heap, view, tip, block_accepted,
  conditions, context, conditions_pass, npc, block_npcs, block_creates, additions_differ, coin_lost,
  old_coin_known,
}

abbrev added : List Coin
added = coinbase ∷ fees ∷ paid ∷ []

accept_new_block_iff_example :
    (accept_new_block toy tip (hash_preimage (heap 0)) (pos 50) 2000 block
      ≡ ok (added, old_name ∷ []))
    ↔ ((hash_of (previous_hash block) ≡ tip.tip_hash)
        × ((b : Body) × (body_obj toy (hash_preimage (heap 0)) (body_hash block) ≡ ok (some b))
            × BodyAccepted toy tip (hash_preimage (heap 0)) (pos 50) 2000 b added (old_name ∷ [])))
accept_new_block_iff_example =
    accept_new_block_iff toy tip (hash_preimage (heap 0)) (pos 50) 2000 block added (old_name ∷ [])

accept_new_block-missing_coin_example :
    accept_new_block toy tip (λ h. none) (pos 50) 2000 block
    ≡ (toy.breakpoint >> raise (fail unknown))
unfolding body_obj obj tip npc paid fetch_coins elem
accept_new_block-missing_coin_example =
    accept_new_block-missing_coin toy tip (λ h. none) (pos 50) 2000 block body [] npc [] (paid ∷ [])
      [] refl refl block_npcs block_creates (omega arith, (omega arith, (omega arith, tt)))
      additions_differ (refl, tt) refl coin_lost

check_conditions_dict_iff_example :
    (check_conditions_dict toy old_coin (conditions_by_opcode conditions) context ≡ ok tt)
    ↔ All (λ c. check_condition toy c.opcode c old_coin context ≡ ok tt) conditions
check_conditions_dict_iff_example = check_conditions_dict_iff toy old_coin context conditions

check_conditions_dict_sound_example : All (Holds toy old_coin context) conditions
check_conditions_dict_sound_example =
    check_conditions_dict_sound toy old_coin context conditions conditions_pass

conditions_by_opcode_lem_example :
    IsSorted (keys (conditions_by_opcode conditions))
    × ((op : Bytes)
        → lookup op (conditions_by_opcode conditions)
          ≡ (if has_opcode op conditions then some (with_opcode op conditions) else none))
conditions_by_opcode_lem_example = conditions_by_opcode_lem conditions

abbrev spent : Cpc
spent = record { coin = old_coin; puzzle_hash = old_coin.puzzle_hash; conditions_dict = [] }

augment_chain_view-marks_example :
    (unspent_for_coin_name
        ((augment_chain_view toy view block zero 0 0 (pos 50) 2000 heap).1 0)
        old_name
      ≡ marked toy 4 0 added (old_name ∷ []) heap old_name)
unfolding tip_of tip
augment_chain_view-marks_example =
    augment_chain_view-marks toy view block zero 0 (pos 50) 2000 heap added (old_name ∷ [])
      block_accepted (inr (_, old_coin_known), tt) old_name

augment_chain_view-keeps_example :
    ((augment_chain_view toy view block zero 0 1 (pos 50) 2000 heap).1 1).unspent_db
    ≡ (heap 1).unspent_db
augment_chain_view-keeps_example =
    augment_chain_view-keeps toy view block zero 0 1 (pos 50) 2000 heap (λ e. omega arith)
