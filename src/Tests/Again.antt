-- ===== src/Tests/Again.antt =====
-- The block is accepted again after it was tried.
use ledger_sim.Prelude.{
  ◌≡◌, refl, sym, ap, ◌∙◌, true, List, [], ◌∷◌, Bytes, bytes_eq, bytes_eq_iff, elem, arith,
}
use mathlib.Core.Path.{subst}
use ledger_sim.Prelude.Int.{pos}
use ledger_sim.Errors.{ok, ok-injective}
use ledger_sim.Hashable.Coin.{Coin, name, coin_obj, coin_bytes, std_hash, coin_eq}
use ledger_sim.Storage.RamDb.{hash_preimage}
use ledger_sim.Validation.AcceptBlock.{accept_new_block, is_added}
use ledger_sim.Validation.AcceptBlock.Exact.{coin_source}
use ledger_sim.Validation.AcceptBlock.Marked.{IsClear, marked_tip}
use ledger_sim.Validation.AcceptBlock.Again.{accept_new_block-again}
use ledger_sim.Tests.Toy.{toy}
use ledger_sim.Tests.Block.{
  old_coin, old_name, coinbase, fees, paid, block, heap, tip, old_coin_found, block_accepted,
}

abbrev added : List Coin
added = coinbase ∷ fees ∷ paid ∷ []

only : (n m : Bytes) → elem n (m ∷ []) ≡ true → m ≡ n
unfolding elem
only n m e = ground (arith, bytes_eq_iff n m)

old_coin-IsClear : IsClear toy added (old_name ∷ []) tip.unspent_db old_coin
unfolding is_added coin_eq elem name coin_bytes std_hash old_name paid bytes_eq old_coin
old_coin-IsClear = record { told = refl; fresh = λ e. cc }

found-IsClear :
    (n : Bytes) (c : Coin)
    → elem n (old_name ∷ []) ≡ true
    → coin_obj toy (coin_source toy (hash_preimage (heap 0)) added) n ≡ ok c
    → IsClear toy added (old_name ∷ []) tip.unspent_db c
found-IsClear n c e found =
    subst (IsClear toy added (old_name ∷ []) tip.unspent_db)
      (ok-injective (
        sym old_coin_found
        ∙ (ap (coin_obj toy (coin_source toy (hash_preimage (heap 0)) added)) (only n old_name e)
            ∙ found)))
      old_coin-IsClear

accept_new_block-again_example :
    accept_new_block toy
      (marked_tip toy added (old_name ∷ []) tip)
      (hash_preimage (heap 0))
      (pos 50)
      2000
      block
    ≡ ok (added, old_name ∷ [])
accept_new_block-again_example =
    accept_new_block-again toy (hash_preimage (heap 0)) (hash_preimage (heap 0)) tip (pos 50) 2000
      block added (old_name ∷ []) block_accepted refl ((λ n e. refl), found-IsClear)
