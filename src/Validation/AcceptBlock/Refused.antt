-- ===== src/Validation/AcceptBlock/Refused.antt =====
-- The blocks that `accept_new_block` of validation/chainview.py refuses, by the rule that they break first.
use ledger_sim.Prelude.{
  ℕ, ◌≡◌, ◌≢◌, refl, false, not, some, List, Bytes, bytes_eq, bytes_eq_iff, map, All, arith,
}
use ledger_sim.Prelude.Int.{ℤ, pos, ◌+ℤ◌, eqb_ℤ, eqb_ℤ_iff}
use ledger_sim.Errors.{
  ok, raise, raise_if, ◌>>=◌, Err, fail, duplicate_output, double_spend, unknown_unspent,
  bad_aggregate_signature,
}
use ledger_sim.Externals.{Externals}
use ledger_sim.Atoms.HashPointer.{Storage}
use ledger_sim.Hashable.BlsSignature.{validate}
use ledger_sim.Hashable.Coin.{Coin, name}
use ledger_sim.Hashable.Blocks.{Body, Header, previous_hash, body_hash, hash_of, body_obj}
use ledger_sim.Validation.NamePuzzleConditions.{Npc}
use ledger_sim.Validation.AcceptBlock.{
  Cpc, add_all, subtract_all, check_solutions, Tip, unknown_unless_consensus, spent_coins,
  check_spends, accept_body, accept_new_block,
}
use ledger_sim.Validation.AcceptBlock.Counter.{no_repeats_iff}
use ledger_sim.Validation.AcceptBlock.Parts.{
  amounts_in, amounts_out, fees_lem, check_amounts_iff, check_puzzle_hashes_iff,
}
use ledger_sim.Validation.AcceptBlock.Spent.{answer_complete, check_removals_iff}
use ledger_sim.Validation.AcceptBlock.Exact.{additions_of, removals_of, block_context}
use ledger_sim.Validation.AcceptBlock.Breaks.{
  IsFetched, IsUnspent, Breaks, off_tip, without_body, bad_program, bad_output, large_amount,
  repeated_output, repeated_removal, other_puzzle, spent_coin, unknown_coin, wrong_reward,
  broken_condition, wrong_signature,
}
use ledger_sim.Validation.AcceptBlock.Raises.{
  no_repeats-raises, check_amounts-raises, check_puzzle_hashes-raises, check_unspent-spent,
  check_unspent-unknown, answer-IsUnknown, check_removals-raises,
}

module _ (x : Externals) (tip : Tip) (storage : Storage) (reward : ℤ) (timestamp : ℕ)
    (h : Header) where
  bytes_differ : (a b : Bytes) → a ≢ b → bytes_eq a b ≡ false
  bytes_differ a b other = ground (arith, bytes_eq_iff a b)

  -- What the rules for the body raise, the block raises.
  body-refused :
      {body : Body} (code : Err)
      → hash_of (previous_hash h) ≡ tip.tip_hash
      → body_obj x storage (body_hash h) ≡ ok (some body)
      → accept_body x tip storage reward timestamp body ≡ raise (fail code)
      → accept_new_block x tip storage reward timestamp h ≡ raise (fail code)
  unfolding accept_new_block unknown_unless_consensus
  body-refused code extends found refused =
      rw ((bytes_eq_iff (hash_of (previous_hash h)) tip.tip_hash).1 extends, found, refused) refl

  -- What the rules for the spends raise, the block raises.
  spends-refused :
      {body : Body} {npcs : List Npc} {created : List Coin} {cpcs : List Cpc} (code : Err)
      → IsFetched x tip storage h body npcs created cpcs
      → All (λ c. c.puzzle_hash ≡ c.coin.puzzle_hash) cpcs
      → check_spends x tip storage reward timestamp body
          (additions_of body created)
          (removals_of npcs)
          cpcs
        ≡ raise (fail code)
      → accept_new_block x tip storage reward timestamp h ≡ raise (fail code)
  unfolding accept_body spent_coins
  spends-refused {body} {npcs} {created} {cpcs} code f match refused =
      body-refused code f.read.extends f.read.found (
        rw
          (
            f.read.spends,
            f.read.creates,
            (check_amounts_iff (additions_of body created)).1 f.amounts_fit,
            (no_repeats_iff (fail duplicate_output) (map (name x) (additions_of body created))).1
                f.outputs_differ,
            (no_repeats_iff (fail double_spend) (removals_of npcs)).1 f.removals_differ,
            f.fetched,
            (check_puzzle_hashes_iff cpcs).1 match,
            refused,
          )
          refl)

  balance_checked :
      (cpcs : List Cpc) (adds : List Coin)
      → amounts_out adds ≢ (amounts_in cpcs +ℤ reward)
      → eqb_ℤ (add_all (subtract_all (pos 0) cpcs) adds) reward ≡ false
  balance_checked cpcs adds wrong = ground (
    arith,
    eqb_ℤ_iff (add_all (subtract_all (pos 0) cpcs) adds) reward,
    fees_lem cpcs adds reward,
  )

  -- What the conditions and the signature raise, the block raises.
  balanced-refused :
      {body : Body} {npcs : List Npc} {created : List Coin} {cpcs : List Cpc} (code : Err)
      → IsUnspent x tip storage h body npcs created cpcs
      → amounts_out (additions_of body created) ≡ amounts_in cpcs +ℤ reward
      → (check_solutions x
            (block_context x tip timestamp (additions_of body created) (removals_of npcs) cpcs)
            cpcs
          >>= λ pairs. validate x body.aggregated_signature pairs >>= λ valid.
              raise_if (not valid) (fail bad_aggregate_signature))
        ≡ raise (fail code)
      → accept_new_block x tip storage reward timestamp h ≡ raise (fail code)
  unfolding check_spends
  balanced-refused {body} {npcs} {created} {cpcs} code u balanced refused =
      spends-refused code u.fetches u.puzzles_match (
        rw
          (
            (check_removals_iff x tip (additions_of body created) cpcs).1 u.unspent,
            (eqb_ℤ_iff (add_all (subtract_all (pos 0) cpcs) (additions_of body created)) reward).1
                ((fees_lem cpcs (additions_of body created) reward).1 balanced),
          )
          refused)

  -- A block that breaks a rule, and no rule before it, is refused with the code of that rule. The rules are,
  -- in this order: the header extends the tip; the body is found; the program names spends; they create coins;
  -- no amount is too large; the names of the outputs differ; those of the removals differ; the puzzles
  -- match; of the coins that the block does not create, none is unknown to the chain up to its tip and
  -- none was spent there; the amounts balance; the conditions hold; and the signature is valid. For the
  -- program, the created coins and the conditions, the code is that of the ConsensusError which reading or
  -- checking them raises.
  pub accept_new_block-refused :
      (code : Err)
      → Breaks x tip storage reward timestamp h code
      → accept_new_block x tip storage reward timestamp h ≡ raise (fail code)
  unfolding accept_new_block accept_body unknown_unless_consensus spent_coins check_spends
  accept_new_block-refused _ (off_tip other) = rw (bytes_differ _ _ other) refl
  accept_new_block-refused _ (without_body extends gone) =
      rw ((bytes_eq_iff (hash_of (previous_hash h)) tip.tip_hash).1 extends, gone) refl
  accept_new_block-refused _ (bad_program code extends found bad) =
      body-refused code extends found (rw bad refl)
  accept_new_block-refused _ (bad_output code extends found spends bad) =
      body-refused code extends found (rw (spends, bad) refl)
  accept_new_block-refused _ (large_amount {body} {npcs} {created} r large) =
      body-refused _ r.extends r.found
        (rw (r.spends, r.creates, check_amounts-raises (additions_of body created) large) refl)
  accept_new_block-refused _ (repeated_output {body} {npcs} {created} r fit repeated) =
      body-refused _ r.extends r.found (
        rw
          (
            r.spends,
            r.creates,
            (check_amounts_iff (additions_of body created)).1 fit,
            no_repeats-raises (fail duplicate_output) (map (name x) (additions_of body created))
                repeated,
          )
          refl)
  accept_new_block-refused _ (repeated_removal {body} {npcs} {created} r fit differ repeated) =
      body-refused _ r.extends r.found (
        rw
          (
            r.spends,
            r.creates,
            (check_amounts_iff (additions_of body created)).1 fit,
            (no_repeats_iff (fail duplicate_output) (map (name x) (additions_of body created))).1
                differ,
            no_repeats-raises (fail double_spend) (removals_of npcs) repeated,
          )
          refl)
  accept_new_block-refused _ (other_puzzle {body} {npcs} {created} {cpcs} f wrong) =
      body-refused _ f.read.extends f.read.found (
        rw
          (
            f.read.spends,
            f.read.creates,
            (check_amounts_iff (additions_of body created)).1 f.amounts_fit,
            (no_repeats_iff (fail duplicate_output) (map (name x) (additions_of body created))).1
                f.outputs_differ,
            (no_repeats_iff (fail double_spend) (removals_of npcs)).1 f.removals_differ,
            f.fetched,
            check_puzzle_hashes-raises cpcs wrong,
          )
          refl)
  accept_new_block-refused _
        (spent_coin {body} {npcs} {created} before c after u f match good other known spent) =
      spends-refused _ f match (
        rw
          (check_removals-raises x tip (additions_of body created) before c after
            (fail double_spend) good other
            (rw (answer_complete x tip (additions_of body created) (name x c.coin) u known)
              (check_unspent-spent tip u spent)))
          refl)
  accept_new_block-refused _
        (unknown_coin {body} {npcs} {created} before c after f match good other missing) =
      spends-refused _ f match (
        rw
          (check_removals-raises x tip (additions_of body created) before c after
            (fail unknown_unspent) good other
            (check_unspent-unknown tip _
              (answer-IsUnknown x tip (additions_of body created) (name x c.coin) missing)))
          refl)
  accept_new_block-refused _ (wrong_reward {body} {npcs} {created} {cpcs} u wrong) =
      spends-refused _ u.fetches u.puzzles_match (
        rw
          (
            (check_removals_iff x tip (additions_of body created) cpcs).1 u.unspent,
            balance_checked cpcs (additions_of body created) wrong,
          )
          refl)
  accept_new_block-refused _ (broken_condition code u balanced broken) =
      balanced-refused code u balanced (rw broken refl)
  accept_new_block-refused _ (wrong_signature pairs u balanced hold wrong) =
      balanced-refused _ u balanced (rw (hold, wrong) refl)
