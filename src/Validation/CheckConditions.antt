-- ===== src/Validation/CheckConditions.antt =====
-- validation/check_conditions.py: the checks of the conditions that a coin's puzzle asserts.
pub mod Soundness
pub mod Grouped
pub mod SameIndex
use ledger_sim.Prelude.{
  ℕ, ◌≡◌, refl, Bool, true, false, not, Option, none, some, List, [], ◌∷◌, Bytes, bytes_eq, elem,
  if◌then◌else◌,
}
use ledger_sim.Prelude.Dict.{Dict, lookup}
use ledger_sim.Prelude.Int.{ℤ, pos, ◌+ℤ◌, leb_ℤ}
use ledger_sim.Errors.{
  Res, ok, raise, Exception, fail, raise_if, or_raise, for_each, index_error, type_error,
  value_error, key_error, attribute_error, invalid_condition, assert_coin_consumed_failed,
  assert_my_coin_id_failed, assert_block_index_exceeds_failed, assert_block_age_exceeds_failed,
  assert_time_exceeds_failed, ◌>>=◌, ◌>>◌,
}
use ledger_sim.Externals.{Externals, PyVal, PyVals, bytes, list, nil, cons}
use ledger_sim.Hashable.Coin.{Coin, name}
use ledger_sim.Hashable.Unspent.{Unspent}
use ledger_sim.Validation.Conditions.{Condition, ConditionsDict, ConditionOpcode, value}

-- the `context` of `accept_new_block`
pub record Context : Type 0 where
  pub block_index : ℕ
  pub removals : List Bytes
  pub coin_to_unspent : Dict (Option Unspent)
  pub creation_time : ℕ

-- `condition[1]`
unfoldable pub first_of_args : List PyVal → Res PyVal
first_of_args [] = raise index_error
first_of_args (v ∷ vs) = ok v

unfoldable pub argument : Condition → Res PyVal
unfolding first_of_args
argument c = first_of_args c.args

-- `except ValueError: raise ConsensusError(Err.INVALID_CONDITION, …)`
unfoldable pub invalid_on_value_error : {A : Type 0} → Res A → Res A
invalid_on_value_error (ok a) = ok a
invalid_on_value_error (raise value_error) = raise (fail invalid_condition)
invalid_on_value_error (raise e) = raise e

-- the loop of `assert_coin_consumed`; a list cannot be looked up in a set
unfoldable pub all_consumed : List PyVal → List Bytes → Res (Unit {0})
all_consumed [] removals = ok tt
all_consumed (bytes n ∷ vs) removals =
    raise_if (not (elem n removals)) (fail assert_coin_consumed_failed) >> all_consumed vs removals
all_consumed (list l ∷ vs) removals = raise type_error

unfoldable pub assert_coin_consumed : Condition → Context → Res (Unit {0})
unfolding all_consumed
assert_coin_consumed condition context = all_consumed condition.args context.removals

-- `coin.name() != condition[1]`; a list differs from every name.
unfoldable pub is_name : Bytes → PyVal → Bool
is_name n (bytes b) = bytes_eq n b
is_name n (list l) = false

module _ (x : Externals) where
  unfoldable pub assert_my_coin_id : Condition → Coin → Res (Unit {0})
  unfolding argument is_name
  assert_my_coin_id condition coin = do
    v ← argument condition
    raise_if (not (is_name (name x coin) v)) (fail assert_my_coin_id_failed)

  -- `int_from_bytes` of an element of a condition
  unfoldable pub int_of : PyVal → Res ℤ
  int_of (bytes b) = x.int_from_bytes b
  int_of (list l) = x.int_from_list l

  unfoldable pub assert_block_index_exceeds : Condition → Context → Res (Unit {0})
  unfolding argument int_of invalid_on_value_error
  assert_block_index_exceeds condition context = do
    expected_block_index ← invalid_on_value_error (do v ← argument condition; int_of v)
    raise_if (leb_ℤ (pos context.block_index) expected_block_index)
        (fail assert_block_index_exceeds_failed)

  -- `context["coin_to_unspent"][coin.name()]`
  unfoldable pub unspent_of : Coin → Context → Res (Option Unspent)
  unspent_of coin context = or_raise key_error (lookup (name x coin) context.coin_to_unspent)

  -- `expected_block_age + unspent.confirmed_block_index`
  unfoldable pub expected_index : Condition → Coin → Context → Res ℤ
  unfolding unspent_of argument int_of
  expected_index condition coin context = do
    found ← unspent_of coin context
    v ← argument condition
    expected_block_age ← int_of v
    unspent ← or_raise attribute_error found
    ok (expected_block_age +ℤ pos unspent.confirmed_block_index)

  unfoldable pub assert_block_age_exceeds : Condition → Coin → Context → Res (Unit {0})
  unfolding expected_index invalid_on_value_error
  assert_block_age_exceeds condition coin context = do
    expected_block_index ← invalid_on_value_error (expected_index condition coin context)
    raise_if (leb_ℤ (pos context.block_index) expected_block_index)
        (fail assert_block_age_exceeds_failed)

  unfoldable pub assert_time_exceeds : Condition → Context → Res (Unit {0})
  unfolding argument int_of
  assert_time_exceeds condition context = do
    v ← argument condition
    min_time ← int_of v
    raise_if (leb_ℤ (pos context.creation_time) min_time) (fail assert_time_exceeds_failed)

  -- `f = CONDITION_CHECKER_LOOKUP.get(condition_id)`, and then `f(condition, coin, context)`; a
  -- condition without a checker is passed over.
  unfoldable pub check_condition : Bytes → Condition → Coin → Context → Res (Unit {0})
  unfolding assert_coin_consumed assert_my_coin_id assert_block_index_exceeds
      assert_block_age_exceeds assert_time_exceeds
  check_condition condition_id condition coin context =
      if bytes_eq condition_id (value ConditionOpcode.assert_coin_consumed)
      then assert_coin_consumed condition context
      else if bytes_eq condition_id (value ConditionOpcode.assert_my_coin_id)
      then assert_my_coin_id condition coin
      else if bytes_eq condition_id (value ConditionOpcode.assert_block_index_exceeds)
      then assert_block_index_exceeds condition context
      else if bytes_eq condition_id (value ConditionOpcode.assert_block_age_exceeds)
      then assert_block_age_exceeds condition coin context
      else if bytes_eq condition_id (value ConditionOpcode.assert_time_exceeds)
      then assert_time_exceeds condition context
      else ok tt

  -- `check_conditions_dict` of chainview.py
  unfoldable pub check_conditions_dict : Coin → ConditionsDict → Context → Res (Unit {0})
  check_conditions_dict coin [] context = ok tt
  check_conditions_dict coin ((condition_id, conditions) ∷ d) context =
      for_each (λ c. check_condition condition_id c coin context) conditions
      >> check_conditions_dict coin d context
