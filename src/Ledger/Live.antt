-- ===== src/Ledger/Live.antt =====
-- next_block of ledger/ledger_api.py on a ledger with no pending bundles.
use ledger_sim.Prelude.{
  ℕ, ◌+◌, ◌^◌, ◌<◌, ◌≡◌, ◌≢◌, refl, sym, ap, ◌∙◌, true, false, List, [], ◌∷◌, Bytes, bytes_eq_iff,
  length, arith, map, elem, ap₂,
}
use mathlib.Core.Path.{subst}
use ledger_sim.Prelude.Int.{pos, sum_ℤ, ◌+ℤ◌, ◌-ℤ◌}
use ledger_sim.Errors.{ok}
use ledger_sim.Externals.{Externals}
use ledger_sim.Atoms.HashPointer.{Storage}
use ledger_sim.Atoms.SizedBytes.{sized}
use ledger_sim.Hashable.BlsSignature.{
  BlsSignature, zero96, nonzero, aggregate_nonzero, aggregate, validate,
}
use ledger_sim.Hashable.Coin.{name}
use ledger_sim.Hashable.Blocks.{Body, Header, header_hash, body_obj, hash_of}
use ledger_sim.Hashable.SpendBundle.{SpendBundle, all_coin_solutions, aggregate_bundles, removals}
use ledger_sim.Storage.RamDb.{hash_preimage}
use ledger_sim.Storage.Heap.{Ref, Heap}
use ledger_sim.Validation.Consensus.{hash_key_pairs_for_solutions, validate_spend_bundle_signature}
use ledger_sim.Validation.NamePuzzleConditions.{Npc, name_puzzle_conditions_list}
use ledger_sim.Validation.AcceptBlock.{Tip, created_coins, fetch_coins, check_solutions}
use ledger_sim.Validation.AcceptBlock.Exact.{removals_of, BodyAccepted}
use ledger_sim.Validation.AcceptBlock.Rules.{accept_new_block_iff}
use ledger_sim.Validation.ChainView.{ChainView, tip_of}
use ledger_sim.Wallet.Deltas.{additions_for_solutions, bundle_additions, fees}
use ledger_sim.Farming.{best_solution_program}
use ledger_sim.Farming.Signing.{IsSha256}
use ledger_sim.Farming.Spends.{ListsWork, best_solution_program_spends}
use ledger_sim.Pool.Rewards.{BlsSizes, indexed_coin}
use ledger_sim.Ledger.{Ledger, genesis_hash, store_block, new_chain_view, next_block}
use ledger_sim.Ledger.Clock.{whole_seconds}
use ledger_sim.Ledger.Farm.{farm, reward}
use ledger_sim.Ledger.Calls.{IsAdvanced, advance-IsAdvanced, attempt-FarmsBlock}
use ledger_sim.Ledger.Invariant.{IsValid}
use ledger_sim.Ledger.Listing.{body_of}
use ledger_sim.Ledger.Listing.Chain.{body_of_held}
use ledger_sim.Ledger.Returns.{ledger_body, farm-returns, new_chain_view-returns, header-hashed}

abbrev no_bundle : SpendBundle
no_bundle = record { coin_solutions = []; aggregated_signature = record { sig = zero96 } }

-- The hashes of a block do not collide: its coinbase coin and its fees coin have different names, and
-- the header's hash is not the hash that stands for no block.
pub record IsFresh (x : Externals) (view : ChainView) (ph fees_ph : Bytes) (now : ℕ) : Type 0 where
  pub names_differ :
      name x (indexed_coin (view.tip_index + 1) ph reward)
      ≢ name x (indexed_coin (view.tip_index + 1) fees_ph (pos 0))
  pub not_genesis :
      (h : Header) (b : Body)
      → farm x view [] ph fees_ph now ≡ ok (h, b)
      → header_hash x h ≢ ok genesis_hash

module _ (x : Externals) where
  aggregate_none : aggregate_bundles x [] ≡ ok no_bundle
  unfolding aggregate_bundles aggregate nonzero aggregate_nonzero all_coin_solutions sized
  aggregate_none = refl

  none_signed : validate_spend_bundle_signature x no_bundle ≡ ok true
  unfolding validate_spend_bundle_signature hash_key_pairs_for_solutions validate
  none_signed = refl

  none_paid : fees x no_bundle ≡ ok (pos 0)
  unfolding fees bundle_additions additions_for_solutions removals sum_ℤ ◌-ℤ◌
  none_paid = refl

  none_added : bundle_additions x no_bundle ≡ ok []
  unfolding bundle_additions additions_for_solutions
  none_added = refl

  no_names : (npcs : List Npc) → removals_of npcs ≡ map (name x) (removals no_bundle) → npcs ≡ []
  unfolding removals
  no_names [] e = refl
  no_names (n ∷ npcs) e = cc

  module _ (lists : ListsWork x) (digests : (b : Bytes) → length (x.sha256 b) ≡ 32) where
    none_spent : name_puzzle_conditions_list x (best_solution_program x no_bundle) ≡ ok []
    none_spent =
        let (npcs, e, creates, names) =
          best_solution_program_spends x lists digests no_bundle [] tt none_added in
        e ∙ ap ok (no_names npcs names)

    -- The body is accepted on every chain view.
    none-accepted :
        (tip : Tip) (storage : Storage) (now i : ℕ) (s : BlsSignature) (ph fees_ph : Bytes)
        → name x (indexed_coin i ph reward) ≢ name x (indexed_coin i fees_ph (pos 0))
        → BodyAccepted x tip storage reward now
            (ledger_body x i no_bundle (pos 0) s ph fees_ph)
            (indexed_coin i ph reward ∷ indexed_coin i fees_ph (pos 0) ∷ [])
            []
    unfolding created_coins fetch_coins check_solutions validate sum_ℤ ◌+ℤ◌ elem
    none-accepted tip storage now i s ph fees_ph different = (
      [],
      [],
      [],
      [],
      record {
        spends = none_spent;
        creates = refl;
        amounts_fit = (omega arith, (omega arith, tt));
        outputs_differ = (differs _ _ different, (refl, tt));
        removals_differ = tt;
        fetched = refl;
        puzzles_match = tt;
        unspent = tt;
        balanced = refl;
        conditions_hold = refl;
        signed = refl;
      },
      refl,
      refl,
    )
      where
        differs : (a b : Bytes) → a ≢ b → elem a (b ∷ []) ≡ false
        differs a b ne = ground (arith, bytes_eq_iff a b)

module _ (x : Externals) (sha : IsSha256 x) (lists : ListsWork x) (sizes : BlsSizes x) where
  -- an attempt with no bundles, on one database
  attempt-returns :
      (view : ChainView) (r : Ref) (heap : Heap) (now : ℕ) (ph fees_ph : Bytes)
      → view.genesis_hash ≡ genesis_hash
      → view.tip_index + 1 < 256 ^ 32
      → whole_seconds now < 256 ^ 8
      → length ph ≡ 32
      → length fees_ph ≡ 32
      → IsFresh x view ph fees_ph now
      → (new : ChainView) × ((new_chain_view x now view [] ph fees_ph r r heap).0 ≡ ok new)
  unfolding tip_of body_obj body_of
  attempt-returns view r heap now ph fees_ph genesis index clock size size' fresh =
      let i : ℕ = view.tip_index + 1 in
      let (s, h, farmed, block) =
        farm-returns x sha sizes view [] ph fees_ph now no_bundle (pos 0) index clock size size'
          (aggregate_none x) (none_signed x) (none_paid x) (0, refl) in
      let b : Body = ledger_body x i no_bundle (pos 0) s ph fees_ph in
      let heap1 : Heap = (store_block x r h b heap).1 in
      let hashed = header-hashed x sha sizes view r now h b block clock in
      (
        _,
        new_chain_view-returns x sha sizes view r now h b block clock [] ph fees_ph heap
            (indexed_coin i ph reward ∷ indexed_coin i fees_ph (pos 0) ∷ []) [] farmed
            (λ e. fresh.not_genesis h b farmed (hashed ∙ ap ok (e ∙ genesis)))
            ((accept_new_block_iff x (tip_of view heap1) (hash_preimage (heap1 r)) reward now h
                (indexed_coin i ph reward ∷ indexed_coin i fees_ph (pos 0) ∷ []) []).1
              (
                ap hash_of block.on,
                (
                  b,
                  body_of_held x (hash_preimage (heap1 r)) h b block.holds,
                  none-accepted x lists sha.size (tip_of view heap1) (hash_preimage (heap1 r)) now i
                      s ph fees_ph fresh.names_differ,
                ),
              ))
            tt,
      )

  -- Where blspy's hash is SHA-256, clvm works on lists as `ListsWork` says and blspy's keys and
  -- signatures have 48 and 96 bytes: of a valid ledger with no pending bundles, `do_next_block` with two
  -- puzzle hashes of 32 bytes returns a block that is the new tip, if the block's index fits in 32 bytes, the
  -- clock's seconds fit in 64 bits as `whole_seconds` rounds them, and the hashes of the block do not collide, as `IsFresh` says.
  pub next_block-returns :
      (l : Ledger) (heap : Heap) (ph fees_ph : Bytes)
      → IsValid x l heap
      → l.spend_bundles ≡ []
      → l.chain_view.tip_index + 1 < 256 ^ 32
      → whole_seconds l.now < 256 ^ 8
      → length ph ≡ 32
      → length fees_ph ≡ 32
      → IsFresh x l.chain_view ph fees_ph l.now
      → IsAdvanced x ph fees_ph l heap (next_block x ph fees_ph l heap)
  unfolding next_block
  next_block-returns l heap ph fees_ph valid none index clock size size' fresh =
      let (new, e) =
        attempt-returns l.chain_view l.storage heap l.now ph fees_ph valid.genesis index clock size
          size' fresh in
      advance-IsAdvanced x l heap ph fees_ph _ new
        (subst
          (λ (q : Ref × List SpendBundle).
            (new_chain_view x l.now l.chain_view q.1 ph fees_ph l.storage q.0 heap).0 ≡ ok new)
          (ap₂ (λ (q : Ref) (bs : List SpendBundle). (q, bs)) (sym valid.one_database) (sym none))
          e)
        (attempt-FarmsBlock x l heap valid.one_database l.spend_bundles ph fees_ph)
