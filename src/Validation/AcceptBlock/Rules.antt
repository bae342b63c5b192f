-- ===== src/Validation/AcceptBlock/Rules.antt =====
-- `accept_new_block` of validation/chainview.py as a whole: what it accepts and what it raises.
use ledger_sim.Prelude.{
  ℕ, ◌≡◌, ap, ◌∙◌, none, some, ◌↔◌, List, [], ◌∷◌, ◌++◌, Bytes, bytes_eq_iff, map, IsDistinct, All,
}
use ledger_sim.Prelude.Int.{ℤ, ◌<ℤ◌}
use ledger_sim.Errors.{
  ok, raise, fail, raise_if, or_raise, type_error, unknown, duplicate_output, double_spend, ◌>>◌,
  >>=-eq-ok, >>-eq-ok, raise_if-eq-ok, not-eq-false, or_raise-eq-ok,
}
use ledger_sim.Externals.{Externals}
use ledger_sim.Atoms.HashPointer.{Storage}
use ledger_sim.Hashable.Coin.{Coin, name, coin_obj}
use ledger_sim.Hashable.Blocks.{Body, Header, previous_hash, body_hash, hash_of, body_obj}
use ledger_sim.Validation.NamePuzzleConditions.{Npc, name_puzzle_conditions_list}
use ledger_sim.Validation.AcceptBlock.{
  max_coin_amount, Cpc, created_coins, fetch_coins, Tip, spent_coins, accept_body,
  unknown_unless_consensus, accept_new_block,
}
use ledger_sim.Validation.AcceptBlock.Counter.{no_repeats_iff}
use ledger_sim.Validation.AcceptBlock.Parts.{check_amounts_iff}
use ledger_sim.Validation.AcceptBlock.Exact.{
  additions_of, removals_of, coin_source, BodyAccepted, accept_body_sound, accept_body_complete,
  unknown_unless_consensus-eq-ok,
}

module _ (x : Externals) (tip : Tip) (storage : Storage) (reward : ℤ) (timestamp : ℕ)
    (h : Header) where
  -- A block is accepted, with these additions and removals, exactly if its header extends the tip,
  -- its body is found, and the body keeps the rules of `IsAccepted`.
  pub accept_new_block_iff :
      (adds : List Coin) (rems : List Bytes)
      → (accept_new_block x tip storage reward timestamp h ≡ ok (adds, rems)) ↔ (
          (hash_of (previous_hash h) ≡ tip.tip_hash)
          × ((body : Body) × (body_obj x storage (body_hash h) ≡ ok (some body))
              × BodyAccepted x tip storage reward timestamp body adds rems))
  unfolding accept_new_block
  accept_new_block_iff adds rems =
      let (to, from) = unknown_unless_consensus-eq-ok x _ (adds, rems) in
      (
        λ e.
            let (extends, k) = >>-eq-ok (raise_if _ _) _ (to e) in
            let (found, e1, k1) = >>=-eq-ok (body_obj x storage (body_hash h)) _ k in
            let (body, e2, k2) = >>=-eq-ok (or_raise _ found) _ k1 in
            (
              (bytes_eq_iff _ tip.tip_hash).0 (not-eq-false _ (raise_if-eq-ok _ _ extends)),
              (
                body,
                e1 ∙ ap ok (or_raise-eq-ok _ found body e2),
                accept_body_sound x tip storage reward timestamp body adds rems k2,
              ),
            ),
        λ (extends, found). from (
            rw (
              (bytes_eq_iff (hash_of (previous_hash h)) tip.tip_hash).1 extends,
              found.1,
              accept_body_complete x tip storage reward timestamp found.0 adds rems found.2,
            )),
      )

fetch_coins-missing :
    (x : Externals) (source : Storage) (before : List Npc) (npc : Npc) (after : List Npc)
    (cpcs : List Cpc)
    → fetch_coins x source before ≡ ok cpcs
    → source npc.coin_name ≡ none
    → fetch_coins x source (before ++ (npc ∷ after)) ≡ raise type_error
unfolding fetch_coins coin_obj
fetch_coins-missing x source [] npc after cpcs e gone = rw (gone, coin_obj)
fetch_coins-missing x source (b ∷ before) npc after cpcs e gone =
    let (coin, e1, k) = >>=-eq-ok (coin_obj x source b.coin_name) _ e in
    let (more, e2, k2) = >>=-eq-ok (fetch_coins x source before) _ k in
    rw (e1, fetch_coins-missing x source before npc after more e2 gone)

module _ (x : Externals) (tip : Tip) (storage : Storage) (reward : ℤ) (timestamp : ℕ)
    (h : Header) where
  -- A block that spends a coin which neither the storage nor the block itself has, and that passes
  -- the checks before, is refused as UNKNOWN, not as UNKNOWN_UNSPENT, once `breakpoint()` has returned: the
  -- missing blob raises a TypeError before the test for a missing coin.
  pub accept_new_block-missing_coin :
      (body : Body) (before : List Npc) (npc : Npc) (after : List Npc) (created : List Coin)
      (cpcs : List Cpc)
      → hash_of (previous_hash h) ≡ tip.tip_hash
      → body_obj x storage (body_hash h) ≡ ok (some body)
      → name_puzzle_conditions_list x body.solution_program ≡ ok (before ++ (npc ∷ after))
      → created_coins x (before ++ (npc ∷ after)) ≡ ok created
      → All (λ c. c.amount <ℤ max_coin_amount) (additions_of body created)
      → IsDistinct (map (name x) (additions_of body created))
      → IsDistinct (removals_of (before ++ (npc ∷ after)))
      → fetch_coins x (coin_source x storage (additions_of body created)) before ≡ ok cpcs
      → coin_source x storage (additions_of body created) npc.coin_name ≡ none
      → accept_new_block x tip storage reward timestamp h ≡ (x.breakpoint >> raise (fail unknown))
  unfolding accept_new_block accept_body spent_coins unknown_unless_consensus
  accept_new_block-missing_coin body before npc after created cpcs extends found e1 e2 fit d1 d2
        known gone =
      rw (
        (bytes_eq_iff (hash_of (previous_hash h)) tip.tip_hash).1 extends,
        found,
        e1,
        e2,
        (check_amounts_iff (additions_of body created)).1 fit,
        (no_repeats_iff (fail duplicate_output) (map (name x) (additions_of body created))).1 d1,
        (no_repeats_iff (fail double_spend) (removals_of (before ++ (npc ∷ after)))).1 d2,
        fetch_coins-missing x (coin_source x storage (additions_of body created)) before npc after
            cpcs known gone,
      )
