-- ===== src/Validation/AcceptBlock/Breaks.antt =====
-- The rules that a block can break, by what `accept_new_block` of validation/chainview.py raises, in the
-- order of the code: of the rules before the broken one, each is kept.
use ledger_sim.Prelude.{ℕ, ◌≡◌, ◌≢◌, false, some, none, List, ◌∷◌, ◌++◌, map, All, IsDistinct}
use ledger_sim.Prelude.Int.{ℤ, ◌+ℤ◌, ◌<ℤ◌}
use ledger_sim.Errors.{
  ok, raise, Err, fail, does_not_extend, missing_from_storage, coin_amount_exceeds_maximum,
  duplicate_output, double_spend, unknown_unspent, wrong_puzzle_hash, bad_coinbase_reward,
  bad_aggregate_signature,
}
use ledger_sim.Externals.{Externals}
use ledger_sim.Atoms.HashPointer.{Storage}
use ledger_sim.Hashable.Message.{AggsigPair}
use ledger_sim.Hashable.BlsSignature.{validate}
use ledger_sim.Hashable.Coin.{Coin, name}
use ledger_sim.Hashable.Unspent.{Unspent}
use ledger_sim.Hashable.Blocks.{Body, Header, previous_hash, body_hash, hash_of, body_obj}
use ledger_sim.Validation.NamePuzzleConditions.{Npc, name_puzzle_conditions_list}
use ledger_sim.Validation.AcceptBlock.{
  max_coin_amount, Cpc, is_added, created_coins, fetch_coins, check_solutions, Tip,
}
use ledger_sim.Validation.AcceptBlock.Parts.{amounts_in, amounts_out}
use ledger_sim.Validation.AcceptBlock.Spent.{FromChain}
use ledger_sim.Validation.AcceptBlock.Exact.{additions_of, removals_of, coin_source, block_context}
use ledger_sim.Validation.AcceptBlock.Raises.{IsSpentAt, IsUnknown}

module _ (x : Externals) (tip : Tip) (storage : Storage) (h : Header) where
  -- The header extends the tip, the body is found, and its program names these spends, which create
  -- these coins.
  pub record IsRead (body : Body) (npcs : List Npc) (created : List Coin) : Type 0 where
    pub extends : hash_of (previous_hash h) ≡ tip.tip_hash
    pub found : body_obj x storage (body_hash h) ≡ ok (some body)
    pub spends : name_puzzle_conditions_list x body.solution_program ≡ ok npcs
    pub creates : created_coins x npcs ≡ ok created

  -- Next, the coins are in range and different, and these are the spent coins.
  pub record IsFetched (body : Body) (npcs : List Npc) (created : List Coin) (cpcs : List Cpc)
      : Type 0 where
    pub read : IsRead body npcs created
    pub amounts_fit : All (λ c. c.amount <ℤ max_coin_amount) (additions_of body created)
    pub outputs_differ : IsDistinct (map (name x) (additions_of body created))
    pub removals_differ : IsDistinct (removals_of npcs)
    pub fetched : fetch_coins x (coin_source x storage (additions_of body created)) npcs ≡ ok cpcs

  -- Next, the puzzles match, and the coins are unspent.
  pub record IsUnspent (body : Body) (npcs : List Npc) (created : List Coin) (cpcs : List Cpc)
      : Type 0 where
    pub fetches : IsFetched body npcs created cpcs
    pub puzzles_match : All (λ c. c.puzzle_hash ≡ c.coin.puzzle_hash) cpcs
    pub unspent : All (FromChain x tip (additions_of body created)) cpcs

module _ (x : Externals) (tip : Tip) (storage : Storage) (reward : ℤ) (timestamp : ℕ)
    (h : Header) where
  -- The block breaks a rule, and no rule before it; the index is the rule's code.
  pub data Breaks : Err → Type 0 where
    off_tip : hash_of (previous_hash h) ≢ tip.tip_hash → Breaks does_not_extend
    without_body :
        hash_of (previous_hash h) ≡ tip.tip_hash
        → body_obj x storage (body_hash h) ≡ ok none
        → Breaks missing_from_storage
    bad_program :
        {body : Body} (code : Err)
        → hash_of (previous_hash h) ≡ tip.tip_hash
        → body_obj x storage (body_hash h) ≡ ok (some body)
        → name_puzzle_conditions_list x body.solution_program ≡ raise (fail code)
        → Breaks code
    bad_output :
        {body : Body} {npcs : List Npc} (code : Err)
        → hash_of (previous_hash h) ≡ tip.tip_hash
        → body_obj x storage (body_hash h) ≡ ok (some body)
        → name_puzzle_conditions_list x body.solution_program ≡ ok npcs
        → created_coins x npcs ≡ raise (fail code)
        → Breaks code
    large_amount :
        {body : Body} {npcs : List Npc} {created : List Coin}
        → IsRead x tip storage h body npcs created
        → ¬ All (λ c. c.amount <ℤ max_coin_amount) (additions_of body created)
        → Breaks coin_amount_exceeds_maximum
    repeated_output :
        {body : Body} {npcs : List Npc} {created : List Coin}
        → IsRead x tip storage h body npcs created
        → All (λ c. c.amount <ℤ max_coin_amount) (additions_of body created)
        → ¬ IsDistinct (map (name x) (additions_of body created))
        → Breaks duplicate_output
    repeated_removal :
        {body : Body} {npcs : List Npc} {created : List Coin}
        → IsRead x tip storage h body npcs created
        → All (λ c. c.amount <ℤ max_coin_amount) (additions_of body created)
        → IsDistinct (map (name x) (additions_of body created))
        → ¬ IsDistinct (removals_of npcs)
        → Breaks double_spend
    other_puzzle :
        {body : Body} {npcs : List Npc} {created : List Coin} {cpcs : List Cpc}
        → IsFetched x tip storage h body npcs created cpcs
        → ¬ All (λ c. c.puzzle_hash ≡ c.coin.puzzle_hash) cpcs
        → Breaks wrong_puzzle_hash
    -- the first coin that the chain does not have unspent, and that the block does not create
    spent_coin :
        {body : Body} {npcs : List Npc} {created : List Coin} (before : List Cpc) (c : Cpc)
        (after : List Cpc) (u : Unspent)
        → IsFetched x tip storage h body npcs created (before ++ c ∷ after)
        → All (λ b. b.puzzle_hash ≡ b.coin.puzzle_hash) (before ++ c ∷ after)
        → All (FromChain x tip (additions_of body created)) before
        → is_added c.coin (additions_of body created) ≡ false
        → tip.unspent_db (name x c.coin) ≡ some u
        → IsSpentAt tip u
        → Breaks double_spend
    unknown_coin :
        {body : Body} {npcs : List Npc} {created : List Coin} (before : List Cpc) (c : Cpc)
        (after : List Cpc)
        → IsFetched x tip storage h body npcs created (before ++ c ∷ after)
        → All (λ b. b.puzzle_hash ≡ b.coin.puzzle_hash) (before ++ c ∷ after)
        → All (FromChain x tip (additions_of body created)) before
        → is_added c.coin (additions_of body created) ≡ false
        → IsUnknown tip (tip.unspent_db (name x c.coin))
        → Breaks unknown_unspent
    wrong_reward :
        {body : Body} {npcs : List Npc} {created : List Coin} {cpcs : List Cpc}
        → IsUnspent x tip storage h body npcs created cpcs
        → amounts_out (additions_of body created) ≢ (amounts_in cpcs +ℤ reward)
        → Breaks bad_coinbase_reward
    broken_condition :
        {body : Body} {npcs : List Npc} {created : List Coin} {cpcs : List Cpc} (code : Err)
        → IsUnspent x tip storage h body npcs created cpcs
        → amounts_out (additions_of body created) ≡ amounts_in cpcs +ℤ reward
        → check_solutions x
            (block_context x tip timestamp (additions_of body created) (removals_of npcs) cpcs)
            cpcs
          ≡ raise (fail code)
        → Breaks code
    wrong_signature :
        {body : Body} {npcs : List Npc} {created : List Coin} {cpcs : List Cpc}
        (pairs : List AggsigPair)
        → IsUnspent x tip storage h body npcs created cpcs
        → amounts_out (additions_of body created) ≡ amounts_in cpcs +ℤ reward
        → check_solutions x
            (block_context x tip timestamp (additions_of body created) (removals_of npcs) cpcs)
            cpcs
          ≡ ok pairs
        → validate x body.aggregated_signature pairs ≡ ok false
        → Breaks bad_aggregate_signature
