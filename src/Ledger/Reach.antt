-- ===== src/Ledger/Reach.antt =====
-- The ledgers that calls lead to: push_tx, next_block and skip_milliseconds in any order, each
-- returning or raising.
use ledger_sim.Prelude.{ℕ, ◌≡◌, ◌≢◌, refl, sym, none, some, [], ◌∷◌, Bytes, arith, suc}
use mathlib.Core.Path.{subst}
use ledger_sim.Errors.{ok}
use ledger_sim.Externals.{Externals}
use ledger_sim.Hashable.SpendBundle.{SpendBundle}
use ledger_sim.Storage.RamDb.{RamDb, empty, hash_preimage, unspent_for_coin_name}
use ledger_sim.Storage.Heap.{Ref, Heap}
use ledger_sim.Validation.ChainView.{for_genesis_hash}
use ledger_sim.Prelude.Dict.{lookup}
use ledger_sim.Farming.Signing.{IsSha256}
use ledger_sim.Ledger.{Ledger, genesis_hash, new_ledger, push_tx, next_block, skip_milliseconds}
use ledger_sim.Ledger.Sound.{IsSound}
use ledger_sim.Ledger.Listing.{get_all_blocks}
use ledger_sim.Ledger.Listing.Chain.{IsChain, bodies, get_all_blocks_lem}
use ledger_sim.Ledger.Invariant.{
  IsValid, push_tx-IsValid, next_block-IsValid, skip_milliseconds-IsValid,
}

module _ (x : Externals) where
  -- one call of a client
  pub data Step : Ledger → Heap → Ledger → Heap → Type 0 where
    pushes :
        (tx : SpendBundle) (l : Ledger) (heap : Heap)
        → Step l heap (push_tx x tx l heap).1 (push_tx x tx l heap).2
    farms :
        (ph fees_ph : Bytes) (l : Ledger) (heap : Heap)
        → Step l heap (next_block x ph fees_ph l heap).1 (next_block x ph fees_ph l heap).2
    skips :
        (ms : ℕ) (l : Ledger) (heap : Heap)
        → Step l heap (skip_milliseconds ms l heap).1 (skip_milliseconds ms l heap).2

  -- from a new ledger over an empty storage
  pub data Reaches : Ledger → Heap → Type 0 where
    starts : (r : Ref) (heap : Heap) → heap r ≡ empty → Reaches (new_ledger r) heap
    then :
        (l : Ledger) (heap : Heap) (l' : Ledger) (heap' : Heap)
        → Reaches l heap
        → Step l heap l' heap'
        → Reaches l' heap'

  nothing : {A : Type 0} {a : A} → none ≡ some a → ⊥
  nothing e = cc

  empty-IsSound : (db : RamDb) → db ≡ empty → IsSound x 1 db
  unfolding hash_preimage unspent_for_coin_name lookup
  empty-IsSound db e = subst (IsSound x 1) (sym e) (record {
    honest = record { at = λ h b found. absurd (nothing found) };
    entries = λ n u found. absurd (nothing found);
  })

  pub new_ledger-IsValid : (r : Ref) (heap : Heap) → heap r ≡ empty → IsValid x (new_ledger r) heap
  unfolding new_ledger for_genesis_hash
  new_ledger-IsValid r heap e = record {
    one_database = refl;
    viewed = refl;
    genesis = refl;
    sound = empty-IsSound (heap r) e;
    chain = refl;
    pending = tt;
  }

  module _ (sha : IsSha256 x) (key : x.hash256 (4 ∷ []) ≢ genesis_hash) where
    Step-IsValid :
        (l : Ledger) (heap : Heap) (l' : Ledger) (heap' : Heap)
        → Step l heap l' heap'
        → IsValid x l heap
        → IsValid x l' heap'
    Step-IsValid l heap l' heap' (pushes tx _ _) v = push_tx-IsValid x l heap v tx
    Step-IsValid l heap l' heap' (farms ph fees_ph _ _) v =
        next_block-IsValid x l heap v sha key ph fees_ph
    Step-IsValid l heap l' heap' (skips ms _ _) v = skip_milliseconds-IsValid x l heap v ms

    -- Where blspy's hash is SHA-256 and the plot key is not zero: whatever calls are made of a new
    -- ledger over an empty storage, in whatever order, and whether they return or raise, the ledger is
    -- valid, as `IsValid` says.
    pub Reaches-IsValid : (l : Ledger) (heap : Heap) → Reaches l heap → IsValid x l heap
    Reaches-IsValid l heap (starts r _ e) = new_ledger-IsValid r heap e
    Reaches-IsValid l heap (then m heap0 _ _ before s) =
        Step-IsValid m heap0 l heap s (Reaches-IsValid m heap0 before)

    -- Where blspy's hash is SHA-256 and the plot key is not zero: of a ledger that calls have led to
    -- from an empty storage, and that has a block, `do_get_all_blocks` returns the bodies of all blocks,
    -- the oldest first, where the fuel is the tip's index.
    pub get_all_blocks-reached :
        (l : Ledger) (heap : Heap) (n : ℕ)
        → Reaches l heap
        → l.chain_view.tip_index ≡ suc n
        → get_all_blocks x
            (hash_preimage (heap l.storage))
            l.chain_view.tip_index
            l.chain_view.tip_hash
          ≡ some (ok (bodies l.chain_view.tip_hash))
    get_all_blocks-reached l heap n reached e =
        let valid = Reaches-IsValid l heap reached in
        get_all_blocks_lem x (hash_preimage (heap l.storage)) n l.chain_view.tip_index
          l.chain_view.tip_hash (subst (λ k. IsChain k l.chain_view.tip_hash) e valid.chain)
          (omega arith)
