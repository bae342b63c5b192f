-- ===== src/Validation/Conditions.antt =====
-- validation/Conditions.py: what a solved puzzle asks for, as a list of conditions.
pub mod ByOpcode
use ledger_sim.Prelude.{
  ℕ, ◌≡◌, refl, Bool, true, false, Option, none, some, List, [], ◌∷◌, ◌++◌, Bytes, bytes_eq, ltb,
  ◌==◌, if◌then◌else◌,
}
use ledger_sim.Prelude.Dict.{Dict}
use ledger_sim.Errors.{
  Res, ok, raise, Err, fail, assert, index_error, assertion_error, name_error, attribute_error,
  invalid_condition, ◌>>=◌, ◌>>◌,
}
use ledger_sim.Externals.{
  Externals, SExp, PyVal, PyVals, bytes, list, nil, cons, to_list, Iter, stop, fails, yields,
}
use ledger_sim.Hashable.Program.{listp}

pub data ConditionOpcode : Type 0 where
  agg_sig create_coin assert_coin_consumed assert_my_coin_id : ConditionOpcode
  assert_time_exceeds assert_block_index_exceeds assert_block_age_exceeds : ConditionOpcode

-- A `ConditionOpcode` is a `bytes`: it is equal to its value, and hashes as its value.
abbrev pub value : ConditionOpcode → Bytes
value agg_sig = 50 ∷ []
value create_coin = 51 ∷ []
value assert_coin_consumed = 52 ∷ []
value assert_my_coin_id = 53 ∷ []
value assert_time_exceeds = 54 ∷ []
value assert_block_index_exceeds = 55 ∷ []
value assert_block_age_exceeds = 56 ∷ []

-- A condition: its opcode, which stands first in the list, and what follows. Wherever an opcode of
-- the enum would stand, its bytes do.
pub record Condition : Type 0 where
  pub opcode : Bytes
  pub args : List PyVal

-- `parse_sexp_to_condition`, of what `as_python` returns. `ConditionOpcode(items[0])` leaves the
-- bytes as they are, and so does the `except ValueError`.
unfoldable pub condition_of_items : PyVal → Res Condition
condition_of_items (bytes []) = raise index_error
condition_of_items (bytes (b ∷ bs)) = raise (fail invalid_condition)
condition_of_items (list nil) = raise index_error
condition_of_items (list (cons (bytes op) rest)) = ok (record { opcode = op; args = to_list rest })
condition_of_items (list (cons (list vs) rest)) = raise (fail invalid_condition)

module _ (x : Externals) where
  unfoldable pub parse_sexp_to_condition : SExp → Res Condition
  unfolding listp condition_of_items
  parse_sexp_to_condition sexp = do
    assert (listp sexp)
    items ← x.as_python sexp
    condition_of_items items

  -- The comprehension of `parse_sexp_to_conditions`: the generator raises when it is reached.
  unfoldable pub parse_iter : Iter SExp → Res (List Condition)
  unfolding parse_sexp_to_condition
  parse_iter stop = ok []
  parse_iter (fails e) = raise e
  parse_iter (yields s it) = do c ← parse_sexp_to_condition s; cs ← parse_iter it; ok (c ∷ cs)

  unfoldable pub parse_sexp_to_conditions : SExp → Res (List Condition)
  unfolding parse_iter
  parse_sexp_to_conditions sexp = parse_iter (x.as_iter sexp)

-- `<` of Python on bytes
unfoldable pub bytes_lt : Bytes → Bytes → Bool
bytes_lt a [] = false
bytes_lt [] (b ∷ bs) = true
bytes_lt (a ∷ as') (b ∷ bs) =
    let rest = bytes_lt as' bs in if ltb a b then true else if a == b then rest else false

-- One more opcode in the sorted list of opcodes, if it is not there
unfoldable pub insert_opcode : Bytes → List Bytes → List Bytes
unfolding bytes_lt
insert_opcode op [] = op ∷ []
insert_opcode op (o ∷ os) =
    if bytes_eq op o then o ∷ os else if bytes_lt op o then op ∷ o ∷ os else o ∷ insert_opcode op os

-- `sorted(set([_[0] for _ in conditions if len(_) > 0]))`
unfoldable pub sorted_opcodes : List Condition → List Bytes
unfolding insert_opcode
sorted_opcodes [] = []
sorted_opcodes (c ∷ cs) = insert_opcode c.opcode (sorted_opcodes cs)

abbrev pub ConditionsDict : Type 0
ConditionsDict = Dict (List Condition)

-- `for _ in opcodes: d[_] = list()`; the opcodes differ.
unfoldable pub empty_lists : List Bytes → ConditionsDict
empty_lists [] = []
empty_lists (op ∷ ops) = (op, []) ∷ empty_lists ops

-- `d[_[0]].append(_)`; the key is there, since every opcode was given a list.
unfoldable pub append_condition : Condition → ConditionsDict → ConditionsDict
append_condition c [] = []
append_condition c ((op, cs) ∷ d) =
    if bytes_eq c.opcode op then (op, cs ++ (c ∷ [])) ∷ d else (op, cs) ∷ append_condition c d

unfoldable pub append_conditions : List Condition → ConditionsDict → ConditionsDict
unfolding append_condition
append_conditions [] d = d
append_conditions (c ∷ cs) d = append_conditions cs (append_condition c d)

unfoldable pub conditions_by_opcode : List Condition → ConditionsDict
unfolding sorted_opcodes empty_lists append_conditions
conditions_by_opcode conditions =
    append_conditions conditions (empty_lists (sorted_opcodes conditions))

-- The makers of conditions; the last but one names an opcode that the enum does not have.
abbrev pub make_create_coin_condition : PyVal → PyVal → Condition
make_create_coin_condition puzzle_hash amount = record {
  opcode = value create_coin;
  args = puzzle_hash ∷ amount ∷ [];
}

abbrev pub make_assert_coin_consumed_condition : PyVal → Condition
make_assert_coin_consumed_condition coin_name = record {
  opcode = value assert_coin_consumed;
  args = coin_name ∷ [];
}

abbrev pub make_assert_my_coin_id_condition : PyVal → Condition
make_assert_my_coin_id_condition coin_name = record {
  opcode = value assert_my_coin_id;
  args = coin_name ∷ [];
}

abbrev pub make_assert_block_index_exceeds_condition : PyVal → Condition
make_assert_block_index_exceeds_condition block_index = record {
  opcode = value assert_block_index_exceeds;
  args = block_index ∷ [];
}

abbrev pub make_assert_block_age_exceeds_condition : PyVal → Condition
make_assert_block_age_exceeds_condition block_index = record {
  opcode = value assert_block_age_exceeds;
  args = block_index ∷ [];
}

abbrev pub make_assert_time_exceeds_condition : PyVal → Condition
make_assert_time_exceeds_condition time = record {
  opcode = value assert_time_exceeds;
  args = time ∷ [];
}

-- `ConditionOpcode.ASSERT_MIN_TIME` is looked up first, and is not a member of the enum.
abbrev pub make_assert_min_time_condition : PyVal → Res Condition
make_assert_min_time_condition time = raise attribute_error

module _ (x : Externals) where
  unfoldable pub parse_sexp_to_conditions_dict : SExp → Res ConditionsDict
  unfolding parse_sexp_to_conditions conditions_by_opcode
  parse_sexp_to_conditions_dict sexp = do
    conditions ← parse_sexp_to_conditions x sexp
    ok (conditions_by_opcode conditions)

  -- a program that returns the conditions, whatever its arguments
  unfoldable pub conditions_to_sexp : List SExp → SExp
  conditions_to_sexp conditions = x.to_sexp (x.quote_keyword ∷ x.to_sexp conditions ∷ [])
