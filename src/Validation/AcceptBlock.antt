-- ===== src/Validation/AcceptBlock.antt =====
-- `accept_new_block` of validation/chainview.py: the rules that a block has to keep.
pub mod Counter
pub mod Parts
pub mod Spent
pub mod Exact
pub mod Rules
pub mod Raises
pub mod Breaks
pub mod Refused
pub mod Marked
pub mod Again
use ledger_sim.Prelude.{
  ℕ, suc, ◌+◌, ◌^◌, ◌≡◌, refl, Bool, true, false, not, ◌&&◌, ◌||◌, Option, none, some, List, [],
  ◌∷◌, ◌++◌, Bytes, bytes_eq, ltb, leb, ◌==◌, elem, map, if◌then◌else◌,
}
use ledger_sim.Prelude.Dict.{Dict, lookup, insert}
use ledger_sim.Prelude.Int.{ℤ, pos, ◌+ℤ◌, ◌-ℤ◌, leb_ℤ, eqb_ℤ}
use ledger_sim.Errors.{
  Res, ok, raise, Exception, consensus_error, Err, fail, raise_if, or_raise, for_each, key_error,
  unknown, does_not_extend, missing_from_storage, coin_amount_exceeds_maximum, duplicate_output,
  double_spend, unknown_unspent, wrong_puzzle_hash, bad_coinbase_reward, bad_aggregate_signature,
  ◌>>=◌, ◌>>◌,
}
use ledger_sim.Externals.{Externals}
use ledger_sim.Atoms.HashPointer.{Storage}
use ledger_sim.Hashable.Message.{AggsigPair}
use ledger_sim.Hashable.Coin.{Coin, coin_eq, name, coin_bytes, coin_obj}
use ledger_sim.Hashable.Unspent.{Unspent}
use ledger_sim.Hashable.BlsSignature.{validate}
use ledger_sim.Hashable.Blocks.{Body, Header, previous_hash, body_hash, hash_of, body_obj}
use ledger_sim.Storage.RamDb.{RamDb, empty, hash_preimage, add_preimage, ram_unspent_db}
use ledger_sim.Storage.Overlay.{Source, overlay}
use ledger_sim.Validation.Conditions.{ConditionsDict}
use ledger_sim.Validation.CheckConditions.{Context, check_conditions_dict}
use ledger_sim.Validation.Consensus.{
  created_outputs_for_conditions_dict, hash_key_pairs_for_conditions_dict,
}
use ledger_sim.Validation.NamePuzzleConditions.{Npc, name_puzzle_conditions_list}

abbrev pub max_coin_amount : ℤ
max_coin_amount = pos (2 ^ 48)

-- the tuple `(coin, puzzle_hash, conditions_dict)`
pub record Cpc : Type 0 where
  pub coin : Coin
  pub puzzle_hash : Bytes
  pub conditions_dict : ConditionsDict

-- `collections.Counter`
unfoldable pub count_in : List Bytes → Dict ℕ → Dict ℕ
count_in [] d = d
count_in (n ∷ ns) d = count_in ns (insert n (elim (lookup n d) [ none ↦ 1 | some k ↦ k + 1 ]) d)

-- `for k, v in counter.items(): if v > 1: raise …`
unfoldable pub raise_if_repeated : Exception → Dict ℕ → Res (Unit {0})
raise_if_repeated e [] = ok tt
raise_if_repeated e ((k, v) ∷ d) = raise_if (ltb 1 v) e >> raise_if_repeated e d

unfoldable pub no_repeats : Exception → List Bytes → Res (Unit {0})
unfolding count_in raise_if_repeated
no_repeats e ns = raise_if_repeated e (count_in ns [])

-- `coin in additions`
unfoldable pub is_added : Coin → List Coin → Bool
is_added c [] = false
is_added c (a ∷ as') = coin_eq a c || is_added c as'

-- The amounts that come in are subtracted, then the amounts that go out are added.
unfoldable pub subtract_all : ℤ → List Cpc → ℤ
subtract_all fees [] = fees
subtract_all fees (c ∷ cs) = subtract_all (fees -ℤ c.coin.amount) cs

unfoldable pub add_all : ℤ → List Coin → ℤ
add_all fees [] = fees
add_all fees (c ∷ cs) = add_all (fees +ℤ c.amount) cs

unfoldable pub check_amounts : List Coin → Res (Unit {0})
check_amounts additions =
    for_each
      (λ (c : Coin). raise_if (leb_ℤ max_coin_amount c.amount) (fail coin_amount_exceeds_maximum))
      additions

-- The puzzle that was revealed is the one that the coin was made for.
unfoldable pub check_puzzle_hashes : List Cpc → Res (Unit {0})
check_puzzle_hashes cpc_list =
    for_each
      (λ (c : Cpc).
        raise_if (not (bytes_eq c.puzzle_hash c.coin.puzzle_hash)) (fail wrong_puzzle_hash))
      cpc_list

-- `unspent is None or …`, with the two errors
unfoldable pub check_unspent : ℕ → Option Unspent → Res (Unit {0})
check_unspent tip_index none = raise (fail unknown_unspent)
check_unspent tip_index (some u) = do
  raise_if (u.confirmed_block_index == 0 || ltb tip_index u.confirmed_block_index)
      (fail unknown_unspent)
  raise_if (ltb 0 u.spent_block_index && leb u.spent_block_index tip_index) (fail double_spend)

module _ (x : Externals) where
  -- `additions_iter`, after the two coins of the body
  unfoldable pub created_coins : List Npc → Res (List Coin)
  created_coins [] = ok []
  created_coins (npc ∷ npcs) = do
    coins ← created_outputs_for_conditions_dict x npc.conditions_dict npc.coin_name
    more ← created_coins npcs
    ok (coins ++ more)

  -- `ram_storage.add_preimage(bytes(_))` for each addition
  unfoldable pub store_coins : List Coin → RamDb → RamDb
  store_coins [] db = db
  store_coins (c ∷ cs) db = store_coins cs (add_preimage x (coin_bytes x c) db)

  -- build `cpc_list` from `npc_list`
  unfoldable pub fetch_coins : Storage → List Npc → Res (List Cpc)
  fetch_coins storage [] = ok []
  fetch_coins storage (npc ∷ npcs) = do
    coin ← coin_obj x storage npc.coin_name
    more ← fetch_coins storage npcs
    ok (
        record { coin = coin; puzzle_hash = npc.puzzle_hash; conditions_dict = npc.conditions_dict }
        ∷ more)

  -- build the `coin_to_unspent` dictionary
  unfoldable pub build_coin_to_unspent :
      Source Unspent → List Cpc → Dict (Option Unspent) → Dict (Option Unspent)
  build_coin_to_unspent unspent_db [] d = d
  build_coin_to_unspent unspent_db (c ∷ cs) d =
      build_coin_to_unspent unspent_db cs (insert (name x c.coin) (unspent_db (name x c.coin)) d)

  -- check one removal against the unspent database
  unfoldable pub check_removal : List Coin → Dict (Option Unspent) → ℕ → Cpc → Res (Unit {0})
  unfolding check_unspent
  check_removal additions coin_to_unspent tip_index c =
      if is_added c.coin additions then ok tt else (do
        unspent ← or_raise key_error (lookup (name x c.coin) coin_to_unspent)
        check_unspent tip_index unspent)

  -- check the conditions of each spent coin, and collect what has to be signed
  unfoldable pub check_solutions : Context → List Cpc → Res (List AggsigPair)
  check_solutions context [] = ok []
  check_solutions context (c ∷ cs) = do
    check_conditions_dict x c.coin c.conditions_dict context
    pairs ← hash_key_pairs_for_conditions_dict c.conditions_dict
    more ← check_solutions context cs
    ok (pairs ++ more)

-- `chain_view`, as far as the rules look at it
pub record Tip : Type 0 where
  pub tip_hash : Bytes
  pub tip_index : ℕ
  pub unspent_db : Source Unspent

-- `except ConsensusError: raise`, and any other exception is reported as UNKNOWN, once `breakpoint()` has
-- returned.
unfoldable pub unknown_unless_consensus : Externals → {A : Type 0} → Res A → Res A
unknown_unless_consensus x (ok a) = ok a
unknown_unless_consensus x (raise (consensus_error e)) = raise (consensus_error e)
unknown_unless_consensus x (raise e) = x.breakpoint >> raise (fail unknown)

-- from the additions to the coins that are spent
unfoldable pub spent_coins : Externals → Storage → List Coin → List Npc → Res (List Cpc)
spent_coins x storage additions npc_list = do
  let ram_storage = store_coins x additions empty
  let overlay_storage = overlay (hash_preimage ram_storage ∷ storage ∷ [])
  cpc_list ← fetch_coins x overlay_storage npc_list
  check_puzzle_hashes cpc_list
  ok cpc_list

-- what the databases answer for the spent coins
unfoldable pub unspents : Externals → Tip → List Coin → List Cpc → Dict (Option Unspent)
unspents x tip additions cpc_list =
    let ram_db = ram_unspent_db x additions (tip.tip_index + 1) [] in
    build_coin_to_unspent x (overlay (tip.unspent_db ∷ (λ n. lookup n ram_db) ∷ [])) cpc_list []

-- the context of the conditions
unfoldable pub context_for : ℕ → ℕ → List Bytes → Dict (Option Unspent) → Context
context_for block_index timestamp removals coin_to_unspent = record {
  block_index = block_index;
  removals = removals;
  coin_to_unspent = coin_to_unspent;
  creation_time = timestamp;
}

module _ (x : Externals) (tip : Tip) (storage : Storage) (coinbase_reward : ℤ) (timestamp : ℕ) where
  -- from the fees to the signature
  unfoldable pub check_spends : Body → List Coin → List Bytes → List Cpc → Res (Unit {0})
  check_spends body additions removals cpc_list = do
    let coin_to_unspent = unspents x tip additions cpc_list
    for_each (check_removal x additions coin_to_unspent tip.tip_index) cpc_list
    let fees = add_all (subtract_all (pos 0) cpc_list) additions
    raise_if (not (eqb_ℤ fees coinbase_reward)) (fail bad_coinbase_reward)
    hash_key_pairs ←
        check_solutions x (context_for (tip.tip_index + 1) timestamp removals coin_to_unspent)
          cpc_list
    valid ← validate x body.aggregated_signature hash_key_pairs
    raise_if (not valid) (fail bad_aggregate_signature)

  -- the rules for a body
  unfoldable pub accept_body : Body → Res (List Coin × List Bytes)
  accept_body body = do
    npc_list ← name_puzzle_conditions_list x body.solution_program
    let removals = map (λ (n : Npc). n.coin_name) npc_list
    created ← created_coins x npc_list
    let additions = body.coinbase_coin ∷ body.fees_coin ∷ created
    check_amounts additions
    no_repeats (fail duplicate_output) (map (name x) additions)
    no_repeats (fail double_spend) removals
    cpc_list ← spent_coins x storage additions npc_list
    check_spends body additions removals cpc_list
    ok (additions, removals)

  unfoldable pub accept_new_block : Header → Res (List Coin × List Bytes)
  accept_new_block h = unknown_unless_consensus x (do
    raise_if (not (bytes_eq (hash_of (previous_hash h)) tip.tip_hash)) (fail does_not_extend)
    found ← body_obj x storage (body_hash h)
    body ← or_raise (fail missing_from_storage) found
    accept_body body)
