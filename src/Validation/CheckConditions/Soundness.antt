-- ===== src/Validation/CheckConditions/Soundness.antt =====
-- What each checker of check_conditions.py accepts.
use ledger_sim.Prelude.{
  ℕ, ◌≡◌, refl, ap, ◌∙◌, true, false, not, some, List, [], ◌∷◌, Bytes, bytes_eq, bytes_eq_iff, elem,
  arith, All,
}
use mathlib.Core.Path.{subst, sym}
use ledger_sim.Prelude.Dict.{lookup}
use ledger_sim.Prelude.Int.{ℤ, pos, ◌+ℤ◌, leb_ℤ, ◌<ℤ◌}
use ledger_sim.Errors.{
  Res, ok, raise, raise_if, or_raise, value_error, ◌>>=◌, >>=-eq-ok, >>-eq-ok, raise_if-eq-ok,
  ok-injective, or_raise-eq-ok,
}
use ledger_sim.Externals.{Externals, PyVal, bytes, list}
use ledger_sim.Hashable.Coin.{Coin, name}
use ledger_sim.Hashable.Unspent.{Unspent}
use ledger_sim.Validation.Conditions.{Condition, ConditionOpcode, value}
use ledger_sim.Validation.CheckConditions.{
  Context, first_of_args, argument, invalid_on_value_error, all_consumed, assert_coin_consumed,
  is_name, assert_my_coin_id, int_of, assert_block_index_exceeds, unspent_of, expected_index,
  assert_block_age_exceeds, assert_time_exceeds, check_condition,
}

-- A name that is among the removals.
abbrev pub IsConsumed : Context → PyVal → Type 0
IsConsumed context v = (n : Bytes) × (v ≡ bytes n) × (elem n context.removals ≡ true)

-- The first argument is an integer.
abbrev pub FirstIs : Externals → Condition → ℤ → Type 0
FirstIs x c n = (v : PyVal) × (vs : List PyVal) × (c.args ≡ v ∷ vs) × (int_of x v ≡ ok n)

pub all_consumed_sound :
    (vs : List PyVal) (context : Context)
    → all_consumed vs context.removals ≡ ok tt
    → All (IsConsumed context) vs
unfolding all_consumed
all_consumed_sound [] context h = tt
all_consumed_sound (bytes n ∷ vs) context h =
    let (found, more) = >>-eq-ok (raise_if (not (elem n context.removals)) _) _ h in
    (
      (n, refl, ground (arith, raise_if-eq-ok (not (elem n context.removals)) _ found)),
      all_consumed_sound vs context more,
    )
all_consumed_sound (list l ∷ vs) context h = cc

first_of_args-eq-ok :
    (args : List PyVal) (v : PyVal)
    → first_of_args args ≡ ok v
    → (vs : List PyVal) × (args ≡ v ∷ vs)
unfolding first_of_args
first_of_args-eq-ok [] v h = cc
first_of_args-eq-ok (w ∷ ws) v h = (ws, ground arith)

argument-eq-ok :
    (c : Condition) (v : PyVal) → argument c ≡ ok v → (vs : List PyVal) × (c.args ≡ v ∷ vs)
unfolding argument
argument-eq-ok c v h = first_of_args-eq-ok c.args v h

invalid_on_value_error-eq-ok :
    {A : Type 0} (m : Res A) (a : A) → invalid_on_value_error m ≡ ok a → m ≡ ok a
unfolding invalid_on_value_error
invalid_on_value_error-eq-ok (ok b) a h = h
invalid_on_value_error-eq-ok (raise value_error) a h = cc
invalid_on_value_error-eq-ok (raise e) a h = cc

is_name-eq : (n : Bytes) (v : PyVal) → is_name n v ≡ true → v ≡ bytes n
unfolding is_name
is_name-eq n (bytes b) h = ground (arith, bytes_eq_iff n b)
is_name-eq n (list l) h = cc

lt_of_not-leb : (a : ℕ) (n : ℤ) → leb_ℤ (pos a) n ≡ false → n <ℤ pos a
lt_of_not-leb a n h = ground arith

-- What a condition asserts of its coin in a context, by its opcode.
pub record Holds (x : Externals) (coin : Coin) (context : Context) (c : Condition) : Type 0 where
  pub consumed :
      c.opcode ≡ value ConditionOpcode.assert_coin_consumed → All (IsConsumed context) c.args
  pub my_id :
      c.opcode ≡ value ConditionOpcode.assert_my_coin_id
      → (vs : List PyVal) × (c.args ≡ bytes (name x coin) ∷ vs)
  pub block_index :
      c.opcode ≡ value ConditionOpcode.assert_block_index_exceeds
      → (n : ℤ) × FirstIs x c n × (n <ℤ pos context.block_index)
  pub block_age :
      c.opcode ≡ value ConditionOpcode.assert_block_age_exceeds
      → (n : ℤ) × (u : Unspent) × FirstIs x c n
        × (lookup (name x coin) context.coin_to_unspent ≡ some (some u))
        × (n +ℤ pos u.confirmed_block_index <ℤ pos context.block_index)
  pub time :
      c.opcode ≡ value ConditionOpcode.assert_time_exceeds
      → (n : ℤ) × FirstIs x c n × (n <ℤ pos context.creation_time)

module _ (x : Externals) (coin : Coin) (context : Context) (c : Condition) where
  my_coin_id_sound :
      assert_my_coin_id x c coin ≡ ok tt → (vs : List PyVal) × (c.args ≡ bytes (name x coin) ∷ vs)
  unfolding assert_my_coin_id
  my_coin_id_sound h =
      let (v, e, k) = >>=-eq-ok (argument c) _ h in
      let (vs, args) = argument-eq-ok c v e in
      (
        vs,
        args
            ∙ ap (λ w. w ∷ vs)
                (is_name-eq (name x coin) v
                  (ground (arith, raise_if-eq-ok (not (is_name (name x coin) v)) _ k))),
      )

  first_int : (n : ℤ) → (argument c >>= int_of x) ≡ ok n → FirstIs x c n
  first_int n h =
      let (v, e, k) = >>=-eq-ok (argument c) (int_of x) h in
      let (vs, args) = argument-eq-ok c v e in (v, vs, args, k)

  block_index_sound :
      assert_block_index_exceeds x c context ≡ ok tt
      → (n : ℤ) × FirstIs x c n × (n <ℤ pos context.block_index)
  unfolding assert_block_index_exceeds
  block_index_sound h =
      let (n, e, k) = >>=-eq-ok (invalid_on_value_error (argument c >>= int_of x)) _ h in
      (
        n,
        first_int n (invalid_on_value_error-eq-ok _ n e),
        lt_of_not-leb context.block_index n (raise_if-eq-ok _ _ k),
      )

  time_sound :
      assert_time_exceeds x c context ≡ ok tt
      → (n : ℤ) × FirstIs x c n × (n <ℤ pos context.creation_time)
  unfolding assert_time_exceeds
  time_sound h =
      let (v, e, k) = >>=-eq-ok (argument c) _ h in
      let (n, i, l) = >>=-eq-ok (int_of x v) _ k in
      let (vs, args) = argument-eq-ok c v e in
      (n, (v, vs, args, i), lt_of_not-leb context.creation_time n (raise_if-eq-ok _ _ l))

  block_age_sound :
      assert_block_age_exceeds x c coin context ≡ ok tt
      → (n : ℤ) × (u : Unspent) × FirstIs x c n
        × (lookup (name x coin) context.coin_to_unspent ≡ some (some u))
        × (n +ℤ pos u.confirmed_block_index <ℤ pos context.block_index)
  unfolding assert_block_age_exceeds expected_index unspent_of
  block_age_sound h =
      let (n, e, k) = >>=-eq-ok (invalid_on_value_error (expected_index x c coin context)) _ h in
      let (found, e1, k1) =
        >>=-eq-ok (unspent_of x coin context) _ (invalid_on_value_error-eq-ok _ n e) in
      let (v, e2, k2) = >>=-eq-ok (argument c) _ k1 in
      let (age, e3, k3) = >>=-eq-ok (int_of x v) _ k2 in
      let (u, e4, k4) = >>=-eq-ok (or_raise _ found) _ k3 in
      let (vs, args) = argument-eq-ok c v e2 in
      (
        age,
        u,
        (v, vs, args, e3),
        or_raise-eq-ok _ _ found e1 ∙ ap some (or_raise-eq-ok _ found u e4),
        subst (λ m. m <ℤ pos context.block_index) (sym (ok-injective k4))
            (lt_of_not-leb context.block_index n (raise_if-eq-ok _ _ k)),
      )

-- A condition that passes its check holds.
pub check_condition_sound :
    (x : Externals) (coin : Coin) (context : Context) (c : Condition)
    → check_condition x c.opcode c coin context ≡ ok tt
    → Holds x coin context c
unfolding bytes_eq
check_condition_sound x coin context c h = record {
  consumed = λ e.
      all_consumed_sound c.args context (unfold assert_coin_consumed check_condition in rw e at h);
  my_id = λ e. my_coin_id_sound x coin context c (unfold check_condition in rw e at h);
  block_index = λ e. block_index_sound x coin context c (unfold check_condition in rw e at h);
  block_age = λ e. block_age_sound x coin context c (unfold check_condition in rw e at h);
  time = λ e. time_sound x coin context c (unfold check_condition in rw e at h);
}
