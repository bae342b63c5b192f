-- ===== src/Errors.antt =====
-- chiasim/validation/ConsensusError.py, and the Python exceptions that the modelled code raises.
-- A function that may raise returns a `Res`. The object that an exception carries goes to its
-- message alone and is not modelled; no code tests it.
use ledger_sim.Prelude.{
  ◌≡◌, ◌⊎◌, inl, inr, refl, Bool, true, false, not, List, [], ◌∷◌, Option, none, some, All,
}

-- class Err
pub data Err : Type 0 where
  does_not_extend bad_header_signature missing_from_storage : Err
  unknown : Err
  bad_coinbase_signature invalid_block_solution invalid_coin_solution duplicate_output : Err
  double_spend unknown_unspent bad_aggregate_signature wrong_puzzle_hash : Err
  bad_coinbase_reward invalid_condition assert_my_coin_id_failed : Err
  assert_coin_consumed_failed assert_block_age_exceeds_failed : Err
  assert_block_index_exceeds_failed coin_amount_exceeds_maximum : Err
  assert_time_exceeds_failed : Err

pub data Exception : Type 0 where
  consensus_error : Err → Exception
  -- clvm.EvalError
  eval_error : Exception
  -- Python's own
  assertion_error attribute_error index_error key_error type_error value_error : Exception
  overflow_error struct_error frozen_instance_error name_error : Exception
  connection_reset_error : Exception

pub data Res {ℓ} (A : Type ℓ) : Type ℓ where
  ok : A → Res A
  raise : Exception → Res A

module _ {ℓ κ} {A : Type ℓ} {B : Type κ} where
  infixl 5 ◌>>=◌
  abbrev pub ◌>>=◌ : Res A → (A → Res B) → Res B
  raise e >>= rest = raise e
  ok v >>= rest = rest v

module _ {κ} {B : Type κ} where
  infixl 5 ◌>>◌
  abbrev pub ◌>>◌ : Res (Unit {0}) → Res B → Res B
  m >> rest = m >>= λ _. rest

-- `if c: raise e`
abbrev pub raise_if : Bool → Exception → Res (Unit {0})
raise_if true e = raise e
raise_if false e = ok tt

abbrev pub fail : Err → Exception
fail = consensus_error

-- `assert c`
abbrev pub assert : Bool → Res (Unit {0})
assert true = ok tt
assert false = raise assertion_error

-- `[f(_) for _ in xs]`
abbrev pub map_res {ℓ κ} : {A : Type ℓ} {B : Type κ} → (A → Res B) → List A → Res (List B)
map_res f [] = ok []
map_res f (x ∷ xs) = do y ← f x; ys ← map_res f xs; ok (y ∷ ys)

-- `for _ in xs: f(_)`
abbrev pub for_each {ℓ} : {A : Type ℓ} → (A → Res (Unit {0})) → List A → Res (Unit {0})
for_each f [] = ok tt
for_each f (x ∷ xs) = f x >> for_each f xs

-- What a `None` raises where an object is wanted.
abbrev pub or_raise {ℓ} : {A : Type ℓ} → Exception → Option A → Res A
or_raise e none = raise e
or_raise e (some a) = ok a

-- Inversion of a successful bind.
module _ {ℓ κ} {A : Type ℓ} {B : Type κ} {returned : B} where
  pub >>=-eq-ok :
      (m : Res A) (rest : A → Res B)
      → (m >>= rest) ≡ ok returned
      → (v : A) × (m ≡ ok v) × (rest v ≡ ok returned)
  >>=-eq-ok (raise e) rest h = cc
  >>=-eq-ok (ok v) rest h = (v, refl, h)

-- The pair again, for a statement whose action returns nothing.
pub >>-eq-ok {ℓ} :
    {B : Type ℓ} (m : Res (Unit {0})) (k : Res B) {b : B}
    → (m >> k) ≡ ok b
    → (m ≡ ok tt) × (k ≡ ok b)
>>-eq-ok (ok u) k h = (refl, h)
>>-eq-ok (raise e) k h = cc

pub raise_if-eq-ok : (c : Bool) (e : Exception) → raise_if c e ≡ ok tt → c ≡ false
raise_if-eq-ok true e h = cc
raise_if-eq-ok false e h = refl

pub assert-eq-ok : (c : Bool) → assert c ≡ ok tt → c ≡ true
assert-eq-ok true h = refl
assert-eq-ok false h = cc

pub ok-injective {ℓ} : {A : Type ℓ} {a b : A} → ok a ≡ ok b → a ≡ b
ok-injective e = cc

-- A loop returns exactly if each round does.
pub for_each_iff {ℓ} :
    {A : Type ℓ} (f : A → Res (Unit {0})) (xs : List A)
    → ((for_each f xs ≡ ok tt) → All (λ a. f a ≡ ok tt) xs)
      × (All (λ a. f a ≡ ok tt) xs → for_each f xs ≡ ok tt)
for_each_iff f [] = (λ e. tt, λ h. refl)
for_each_iff f (c ∷ cs) =
    let (to, from) = for_each_iff f cs in
    (
      λ e. let (now, later) = >>-eq-ok (f c) (for_each f cs) e in (now, to later),
      λ h. rw h.0 (from h.1),
    )

pub or_raise-eq-ok {ℓ} :
    {A : Type ℓ} (e : Exception) (o : Option A) (a : A) → or_raise e o ≡ ok a → o ≡ some a
or_raise-eq-ok e none a h = cc
or_raise-eq-ok e (some b) a h = cc

pub not-eq-false : (b : Bool) → not b ≡ false → b ≡ true
not-eq-false true h = refl
not-eq-false false h = cc

pub raise-injective {ℓ} :
    {A : Type ℓ} {a b : Exception} → ◌≡◌ {A = Res A} (raise a) (raise b) → a ≡ b
raise-injective e = cc

pub Res-cases {ℓ} :
    {A : Type ℓ} (r : Res A) → ((e : Exception) × (r ≡ raise e)) ⊎ ((a : A) × (r ≡ ok a))
Res-cases (raise e) = inl (e, refl)
Res-cases (ok a) = inr (a, refl)
