-- ===== src/Validation/CheckConditions/SameIndex.antt =====
-- What the checks of validation/check_conditions.py read of the unspent database: of each spent coin, the
-- index at which it was confirmed.
use ledger_sim.Prelude.{◌≡◌, refl, some, Option, List, [], ◌∷◌, All, Bytes}
use ledger_sim.Prelude.Dict.{Dict, lookup}
use ledger_sim.Errors.{for_each}
use ledger_sim.Externals.{Externals}
use ledger_sim.Hashable.Coin.{Coin, name}
use ledger_sim.Hashable.Unspent.{Unspent}
use ledger_sim.Validation.Conditions.{Condition, ConditionsDict}
use ledger_sim.Validation.CheckConditions.{
  Context, unspent_of, expected_index, assert_block_age_exceeds, check_condition,
  check_conditions_dict,
}
use ledger_sim.Validation.AcceptBlock.{Cpc, check_solutions}

-- Both dictionaries have the coin, confirmed at one index.
abbrev pub SameIndex : Externals → Dict (Option Unspent) → Dict (Option Unspent) → Coin → Type 0
SameIndex x d d' coin =
    (u : Unspent) × (u' : Unspent) × (lookup (name x coin) d ≡ some (some u))
    × (lookup (name x coin) d' ≡ some (some u'))
    × (u.confirmed_block_index ≡ u'.confirmed_block_index)

module _ (x : Externals) (context : Context) (d' : Dict (Option Unspent)) where
  abbrev other : Context
  other = record context { coin_to_unspent = d' }

  module _ (coin : Coin) (same : SameIndex x context.coin_to_unspent d' coin) where
    age-same :
        (c : Condition)
        → assert_block_age_exceeds x c coin context ≡ assert_block_age_exceeds x c coin other
    unfolding assert_block_age_exceeds expected_index unspent_of
    age-same c = let (u, u', e, e', index) = same in rw (e, e', index) refl

    check_condition-same :
        (op : Bytes) (c : Condition)
        → check_condition x op c coin context ≡ check_condition x op c coin other
    unfolding check_condition
    check_condition-same op c = rw (age-same c) refl

    conditions-same :
        (op : Bytes) (cs : List Condition)
        → for_each (λ c. check_condition x op c coin context) cs
          ≡ for_each (λ c. check_condition x op c coin other) cs
    conditions-same op [] = refl
    conditions-same op (c ∷ cs) = rw (check_condition-same op c, conditions-same op cs) refl

    check_conditions_dict-same :
        (d : ConditionsDict)
        → check_conditions_dict x coin d context ≡ check_conditions_dict x coin d other
    unfolding check_conditions_dict
    check_conditions_dict-same [] = refl
    check_conditions_dict-same ((op, cs) ∷ d) =
        rw (conditions-same op cs, check_conditions_dict-same d) refl

  -- The spent coins pass their conditions with the one dictionary if they do with the other.
  pub check_solutions-same :
      (cpcs : List Cpc)
      → All (λ c. SameIndex x context.coin_to_unspent d' c.coin) cpcs
      → check_solutions x context cpcs ≡ check_solutions x other cpcs
  unfolding check_solutions
  check_solutions-same [] h = refl
  check_solutions-same (c ∷ cpcs) h =
      rw (check_conditions_dict-same c.coin h.0 c.conditions_dict, check_solutions-same cpcs h.1)
        refl
