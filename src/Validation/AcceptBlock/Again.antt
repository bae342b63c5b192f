-- ===== src/Validation/AcceptBlock/Again.antt =====
-- `accept_new_block` of validation/chainview.py on a database that has been marked with the block already,
-- as `do_push_tx` of ledger/ledger_api.py leaves it when it tries a block.
use ledger_sim.Prelude.{
  ℕ, ◌≡◌, refl, sym, ap, ◌∙◌, true, some, List, [], ◌∷◌, Bytes, elem, All, All-map, All-elem-map,
  All-both,
}
use mathlib.Core.Path.{subst, subst₂}
use ledger_sim.Prelude.Int.{ℤ}
use ledger_sim.Errors.{ok, >>=-eq-ok, ok-injective}
use ledger_sim.Externals.{Externals}
use ledger_sim.Atoms.HashPointer.{Storage}
use ledger_sim.Hashable.Coin.{Coin, coin_obj}
use ledger_sim.Hashable.Blocks.{Body, Header, body_hash, body_obj}
use ledger_sim.Hashable.Message.{AggsigPair}
use ledger_sim.Storage.Overlay.{overlay}
use ledger_sim.Validation.NamePuzzleConditions.{Npc}
use ledger_sim.Validation.CheckConditions.SameIndex.{check_solutions-same}
use ledger_sim.Validation.AcceptBlock.{
  Cpc, fetch_coins, Tip, unspents, context_for, accept_new_block,
}
use ledger_sim.Validation.AcceptBlock.Spent.{answer, lookup-coin_to_unspent}
use ledger_sim.Validation.AcceptBlock.Exact.{
  IsAccepted, additions_of, removals_of, coin_source, block_context,
}
use ledger_sim.Validation.AcceptBlock.Rules.{accept_new_block_iff}
use ledger_sim.Validation.AcceptBlock.Marked.{marked_tip, IsClear, FromChain-marked, answers-same}

module _ (x : Externals) (storage storage' : Storage) where
  coin_obj-same : (s s' : Storage) (n : Bytes) → s' n ≡ s n → coin_obj x s' n ≡ coin_obj x s n
  unfolding coin_obj
  coin_obj-same s s' n e = rw (e, coin_obj) refl

  fetch_coins-same :
      (s s' : Storage) (npcs : List Npc)
      → All (λ (n : Npc). s' n.coin_name ≡ s n.coin_name) npcs
      → fetch_coins x s' npcs ≡ fetch_coins x s npcs
  unfolding fetch_coins
  fetch_coins-same s s' [] h = refl
  fetch_coins-same s s' (n ∷ npcs) h =
      rw (coin_obj-same s s' n.coin_name h.0, fetch_coins-same s s' npcs h.1) refl

  same_source :
      (adds : List Coin) (n : Bytes)
      → storage' n ≡ storage n
      → coin_source x storage' adds n ≡ coin_source x storage adds n
  unfolding overlay
  same_source adds n e = rw e refl

  -- where each spent coin was found
  fetched_from :
      (s : Storage) (rems : List Bytes) (npcs : List Npc) (cpcs : List Cpc)
      → fetch_coins x s npcs ≡ ok cpcs
      → All (λ (n : Npc). elem n.coin_name rems ≡ true) npcs
      → All (λ c. (n : Bytes) × (elem n rems ≡ true) × (coin_obj x s n ≡ ok c.coin)) cpcs
  unfolding fetch_coins
  fetched_from s rems [] cpcs e h =
      subst (λ cs. All (λ c. (n : Bytes) × (elem n rems ≡ true) × (coin_obj x s n ≡ ok c.coin)) cs)
        (ok-injective e) tt
  fetched_from s rems (n ∷ npcs) cpcs e h =
      let (coin, e1, k) = >>=-eq-ok (coin_obj x s n.coin_name) _ e in
      let (more, e2, k2) = >>=-eq-ok (fetch_coins x s npcs) _ k in
      subst (λ cs. All (λ c. (n : Bytes) × (elem n rems ≡ true) × (coin_obj x s n ≡ ok c.coin)) cs)
        (ok-injective k2) ((n.coin_name, h.0, e1), fetched_from s rems npcs more e2 h.1)

  module _ (tip : Tip) (reward : ℤ) (timestamp : ℕ) where
    -- The removed coins are stored as before, and the spent coins are clear.
    abbrev pub IsUndisturbed : List Coin → List Bytes → Type 0
    IsUndisturbed adds rems =
        ((n : Bytes) → elem n rems ≡ true → storage' n ≡ storage n)
        × ((n : Bytes) (c : Coin)
            → elem n rems ≡ true
            → coin_obj x (coin_source x storage adds) n ≡ ok c
            → IsClear x adds rems tip.unspent_db c)

    again-IsAccepted :
        (body : Body) (npcs : List Npc) (created : List Coin) (cpcs : List Cpc)
        (pairs : List AggsigPair)
        → IsUndisturbed (additions_of body created) (removals_of npcs)
        → IsAccepted x tip storage reward timestamp body npcs created cpcs pairs
        → IsAccepted x
            (marked_tip x (additions_of body created) (removals_of npcs) tip)
            storage'
            reward
            timestamp
            body
            npcs
            created
            cpcs
            pairs
    unfolding context_for unspents
    again-IsAccepted body npcs created cpcs pairs (stored, clear) a =
        let adds : List Coin = additions_of body created in
        let rems : List Bytes = removals_of npcs in
        let removed : All (λ (n : Npc). elem n.coin_name rems ≡ true) npcs =
          All-elem-map (λ (n : Npc). n.coin_name) npcs in
        let is_clear : All (λ c. IsClear x adds rems tip.unspent_db c.coin) cpcs =
          All-map cpcs (λ c (n, at_n, found). clear n c.coin at_n found)
            (fetched_from (coin_source x storage adds) rems npcs cpcs a.fetched removed) in
        let clear_and_unspent = All-both _ _ cpcs is_clear a.unspent in
        record {
          spends = a.spends;
          creates = a.creates;
          amounts_fit = a.amounts_fit;
          outputs_differ = a.outputs_differ;
          removals_differ = a.removals_differ;
          fetched =
              fetch_coins-same (coin_source x storage adds) (coin_source x storage' adds) npcs (
                All-map npcs (λ n at_n. same_source adds n.coin_name (stored n.coin_name at_n))
                  removed)
              ∙ a.fetched;
          puzzles_match = a.puzzles_match;
          unspent =
              All-map cpcs (λ c (k, from_chain). FromChain-marked x adds rems tip c k from_chain)
                clear_and_unspent;
          balanced = a.balanced;
          conditions_hold =
              sym (
                check_solutions-same x (block_context x tip timestamp adds rems cpcs)
                  (unspents x (marked_tip x adds rems tip) adds cpcs) cpcs
                  (All-map cpcs
                    (λ c (known, (known', (k, from_chain))).
                      let (u, u', e, e', index) = answers-same x adds rems tip c k from_chain in
                      (u, u', known ∙ ap some e, known' ∙ ap some e', index))
                    (All-both _ _ cpcs (lookup-coin_to_unspent x (answer x tip adds) cpcs) (
                      All-both _ _ cpcs
                        (lookup-coin_to_unspent x (answer x (marked_tip x adds rems tip) adds) cpcs)
                        clear_and_unspent))))
              ∙ a.conditions_hold;
          signed = a.signed;
        }

    module _ (h : Header) where
      -- what the theorem says of some additions and removals
      abbrev IsAgain : List Coin → List Bytes → Type 0
      IsAgain adds rems =
          IsUndisturbed adds rems
          → accept_new_block x (marked_tip x adds rems tip) storage' reward timestamp h
            ≡ ok (adds, rems)

      -- A block that was accepted is accepted again, with the same additions and removals, on the same tip
      -- after the database was marked with it at the next index, as a block that was only tried leaves it: where
      -- the storage gives the same body and the same blobs for the removed coins, and each spent coin has the name
      -- of an added coin exactly if it is added, and then had no entry.
      pub accept_new_block-again :
          (adds : List Coin) (rems : List Bytes)
          → accept_new_block x tip storage reward timestamp h ≡ ok (adds, rems)
          → body_obj x storage' (body_hash h) ≡ body_obj x storage (body_hash h)
          → IsUndisturbed adds rems
          → accept_new_block x (marked_tip x adds rems tip) storage' reward timestamp h
            ≡ ok (adds, rems)
      accept_new_block-again adds rems accepted same_body undisturbed =
          let (extends, (body, found, (npcs, created, cpcs, pairs, a, e, f))) =
            (accept_new_block_iff x tip storage reward timestamp h adds rems).0 accepted in
          subst₂ IsAgain (sym e) (sym f)
            (λ u.
              (accept_new_block_iff x
                  (marked_tip x (additions_of body created) (removals_of npcs) tip) storage' reward
                  timestamp h (additions_of body created) (removals_of npcs)).1
                (
                  extends,
                  (
                    body,
                    same_body ∙ found,
                    (
                      npcs,
                      created,
                      cpcs,
                      pairs,
                      again-IsAccepted body npcs created cpcs pairs u a,
                      refl,
                      refl,
                    ),
                  ),
                ))
            undisturbed
