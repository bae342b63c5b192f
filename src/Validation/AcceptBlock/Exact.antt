-- ===== src/Validation/AcceptBlock/Exact.antt =====
-- `accept_new_block` against a description of the blocks that it accepts.
use ledger_sim.Prelude.{ℕ, ◌+◌, ◌≡◌, ap, ◌∙◌, true, List, [], ◌∷◌, Bytes, map, All, IsDistinct}
use mathlib.Core.Path.{subst, sym}
use ledger_sim.Prelude.Int.{ℤ, pos, ◌+ℤ◌, ◌<ℤ◌, eqb_ℤ_iff}
use ledger_sim.Errors.{
  Res, ok, raise, Exception, consensus_error, unknown, ◌>>◌, fail, raise_if, for_each,
  duplicate_output, double_spend, >>=-eq-ok, >>-eq-ok, raise_if-eq-ok, not-eq-false, ok-injective,
}
use ledger_sim.Externals.{Externals}
use ledger_sim.Atoms.HashPointer.{Storage}
use ledger_sim.Hashable.Message.{AggsigPair}
use ledger_sim.Hashable.Coin.{Coin, name}
use ledger_sim.Hashable.BlsSignature.{validate}
use ledger_sim.Hashable.Blocks.{Body}
use ledger_sim.Storage.RamDb.{empty, hash_preimage}
use ledger_sim.Storage.Overlay.{overlay}
use ledger_sim.Validation.CheckConditions.{Context}
use ledger_sim.Validation.NamePuzzleConditions.{Npc, name_puzzle_conditions_list}
use ledger_sim.Validation.AcceptBlock.{
  max_coin_amount, Cpc, no_repeats, add_all, subtract_all, check_amounts, check_puzzle_hashes,
  check_removal, created_coins, store_coins, fetch_coins, check_solutions, Tip, spent_coins,
  unspents, context_for, check_spends, accept_body, unknown_unless_consensus,
}
use ledger_sim.Validation.AcceptBlock.Counter.{no_repeats_iff}
use ledger_sim.Validation.AcceptBlock.Parts.{
  amounts_in, amounts_out, fees_lem, check_amounts_iff, check_puzzle_hashes_iff,
}
use ledger_sim.Validation.AcceptBlock.Spent.{FromChain, check_removals_iff}

-- the coins that a block adds
abbrev pub additions_of : Body → List Coin → List Coin
additions_of body created = body.coinbase_coin ∷ body.fees_coin ∷ created

abbrev pub removals_of : List Npc → List Bytes
removals_of npcs = map (λ (n : Npc). n.coin_name) npcs

-- where the spent coins are looked up: among the additions, then in the storage
abbrev pub coin_source : Externals → Storage → List Coin → Storage
coin_source x storage additions =
    overlay (hash_preimage (store_coins x additions empty) ∷ storage ∷ [])

-- the context in which the conditions of the block are checked
abbrev pub block_context : Externals → Tip → ℕ → List Coin → List Bytes → List Cpc → Context
block_context x tip timestamp additions removals cpcs =
    context_for (tip.tip_index + 1) timestamp removals (unspents x tip additions cpcs)

-- What a body has to keep to: `npcs` are the coins that its program spends, by name, `created` the
-- coins that their conditions create, `cpcs` the spent coins themselves, and `pairs` what has to be
-- signed.
pub record IsAccepted (x : Externals) (tip : Tip) (storage : Storage) (reward : ℤ) (timestamp : ℕ)
    (body : Body) (npcs : List Npc) (created : List Coin) (cpcs : List Cpc)
    (pairs : List AggsigPair) : Type 0 where
  pub spends : name_puzzle_conditions_list x body.solution_program ≡ ok npcs
  pub creates : created_coins x npcs ≡ ok created
  pub amounts_fit : All (λ c. c.amount <ℤ max_coin_amount) (additions_of body created)
  pub outputs_differ : IsDistinct (map (name x) (additions_of body created))
  pub removals_differ : IsDistinct (removals_of npcs)
  pub fetched : fetch_coins x (coin_source x storage (additions_of body created)) npcs ≡ ok cpcs
  pub puzzles_match : All (λ c. c.puzzle_hash ≡ c.coin.puzzle_hash) cpcs
  pub unspent : All (FromChain x tip (additions_of body created)) cpcs
  pub balanced : amounts_out (additions_of body created) ≡ amounts_in cpcs +ℤ reward
  pub conditions_hold :
      check_solutions x
        (block_context x tip timestamp (additions_of body created) (removals_of npcs) cpcs)
        cpcs
      ≡ ok pairs
  pub signed : validate x body.aggregated_signature pairs ≡ ok true

module _ (x : Externals) (tip : Tip) (storage : Storage) (reward : ℤ) (timestamp : ℕ) (body : Body)
    (npcs : List Npc) (created : List Coin) (cpcs : List Cpc) where
  abbrev additions : List Coin
  additions = additions_of body created

  abbrev Rest : List AggsigPair → Type 0
  Rest pairs =
      All (FromChain x tip additions) cpcs
      × (amounts_out additions ≡ amounts_in cpcs +ℤ reward)
      × (check_solutions x (block_context x tip timestamp additions (removals_of npcs) cpcs) cpcs
          ≡ ok pairs)
      × (validate x body.aggregated_signature pairs ≡ ok true)

  check_spends_sound :
      check_spends x tip storage reward timestamp body additions (removals_of npcs) cpcs ≡ ok tt
      → (pairs : List AggsigPair) × Rest pairs
  unfolding check_spends
  check_spends_sound h =
      let (unspent, k) =
        >>-eq-ok
          (for_each (check_removal x additions (unspents x tip additions cpcs) tip.tip_index) cpcs)
          _ h in
      let (fees, k1) = >>-eq-ok (raise_if _ _) _ k in
      let (pairs, e2, k2) = >>=-eq-ok (check_solutions x _ cpcs) _ k1 in
      let (valid, e3, k3) = >>=-eq-ok (validate x body.aggregated_signature pairs) _ k2 in
      (
        pairs,
        (
          (check_removals_iff x tip additions cpcs).0 unspent,
          (fees_lem cpcs additions reward).0
              ((eqb_ℤ_iff _ reward).0 (not-eq-false _ (raise_if-eq-ok _ _ fees))),
          e2,
          e3 ∙ ap ok (not-eq-false valid (raise_if-eq-ok _ _ k3)),
        ),
      )

  check_spends_complete :
      (pairs : List AggsigPair)
      → Rest pairs
      → check_spends x tip storage reward timestamp body additions (removals_of npcs) cpcs ≡ ok tt
  unfolding check_spends
  check_spends_complete pairs (unspent, balanced, hold, signed) = rw (
    (check_removals_iff x tip additions cpcs).1 unspent,
    (eqb_ℤ_iff (add_all (subtract_all (pos 0) cpcs) additions) reward).1
        ((fees_lem cpcs additions reward).1 balanced),
    hold,
    signed,
  )

module _ (x : Externals) (tip : Tip) (storage : Storage) (reward : ℤ) (timestamp : ℕ)
    (body : Body) where
  -- The body is accepted with these additions and removals.
  abbrev pub BodyAccepted : List Coin → List Bytes → Type 0
  BodyAccepted additions removals =
      (npcs : List Npc) × (created : List Coin) × (cpcs : List Cpc) × (pairs : List AggsigPair)
      × IsAccepted x tip storage reward timestamp body npcs created cpcs pairs
      × (additions ≡ additions_of body created)
      × (removals ≡ removals_of npcs)

  spent_coins_sound :
      (adds : List Coin) (npcs : List Npc) (cpcs : List Cpc)
      → spent_coins x storage adds npcs ≡ ok cpcs
      → (fetch_coins x (coin_source x storage adds) npcs ≡ ok cpcs)
        × All (λ c. c.puzzle_hash ≡ c.coin.puzzle_hash) cpcs
  unfolding spent_coins
  spent_coins_sound adds npcs cpcs h =
      let (found, e, k) = >>=-eq-ok (fetch_coins x (coin_source x storage adds) npcs) _ h in
      let (same, k1) = >>-eq-ok (check_puzzle_hashes found) _ k in
      let eq' = ok-injective k1 in
      (
        e ∙ k1,
        subst (λ cs. All (λ c. c.puzzle_hash ≡ c.coin.puzzle_hash) cs) eq'
            ((check_puzzle_hashes_iff found).0 same),
      )

  pub accept_body_sound :
      (adds : List Coin) (rems : List Bytes)
      → accept_body x tip storage reward timestamp body ≡ ok (adds, rems)
      → BodyAccepted adds rems
  unfolding accept_body
  accept_body_sound adds rems h =
      let (npcs, e, k) = >>=-eq-ok (name_puzzle_conditions_list x body.solution_program) _ h in
      let (created, e1, k1) = >>=-eq-ok (created_coins x npcs) _ k in
      let (fit, k2) = >>-eq-ok (check_amounts (additions_of body created)) _ k1 in
      let (outputs, k3) =
        >>-eq-ok (no_repeats (fail duplicate_output) (map (name x) (additions_of body created))) _
          k2 in
      let (removed, k4) = >>-eq-ok (no_repeats (fail double_spend) (removals_of npcs)) _ k3 in
      let (cpcs, e5, k5) =
        >>=-eq-ok (spent_coins x storage (additions_of body created) npcs) _ k4 in
      let (spends, k6) =
        >>-eq-ok (check_spends x tip storage reward timestamp body _ _ cpcs) _ k5 in
      let (fetched, puzzles) = spent_coins_sound (additions_of body created) npcs cpcs e5 in
      let (pairs, rest) =
        check_spends_sound x tip storage reward timestamp body npcs created cpcs spends in
      (
        npcs,
        created,
        cpcs,
        pairs,
        record {
          spends = e;
          creates = e1;
          amounts_fit = (check_amounts_iff _).0 fit;
          outputs_differ = (no_repeats_iff _ _).0 outputs;
          removals_differ = (no_repeats_iff _ _).0 removed;
          fetched = fetched;
          puzzles_match = puzzles;
          unspent = rest.0;
          balanced = rest.1;
          conditions_hold = rest.2;
          signed = rest.3;
        },
        sym (ap (λ r. r.0) (ok-injective k6)),
        sym (ap (λ r. r.1) (ok-injective k6)),
      )

  pub accept_body_complete :
      (adds : List Coin) (rems : List Bytes)
      → BodyAccepted adds rems
      → accept_body x tip storage reward timestamp body ≡ ok (adds, rems)
  unfolding accept_body spent_coins
  accept_body_complete adds rems (npcs, created, cpcs, pairs, a, e, f) = rw (
    a.spends,
    a.creates,
    (check_amounts_iff (additions_of body created)).1 a.amounts_fit,
    (no_repeats_iff (fail duplicate_output) (map (name x) (additions_of body created))).1
        a.outputs_differ,
    (no_repeats_iff (fail double_spend) (removals_of npcs)).1 a.removals_differ,
    a.fetched,
    (check_puzzle_hashes_iff cpcs).1 a.puzzles_match,
    check_spends_complete x tip storage reward timestamp body npcs created cpcs pairs
        (a.unspent, a.balanced, a.conditions_hold, a.signed),
    e,
    f,
  )

-- The handlers do not return.
pub unknown_unless_consensus-eq-ok :
    (x : Externals) {A : Type 0} (m : Res A) (a : A)
    → ((unknown_unless_consensus x m ≡ ok a) → m ≡ ok a)
      × (m ≡ ok a → unknown_unless_consensus x m ≡ ok a)
unfolding unknown_unless_consensus
unknown_unless_consensus-eq-ok x (ok b) a = ((λ h. h), (λ h. h))
unknown_unless_consensus-eq-ok x (raise e) a = ((λ h. absurd (never e h)), (λ h. cc))
  where
    stopped : (b : Res (Unit {0})) → ◌≡◌ {A = Res _} (b >> raise (fail unknown)) (ok a) → ⊥
    stopped (ok u) h = cc
    stopped (raise e) h = cc

    never : (e : Exception) → unknown_unless_consensus x {A = _} (raise e) ≡ ok a → ⊥
    never (consensus_error c) h = cc
    never _ h = stopped x.breakpoint h
