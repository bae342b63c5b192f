-- ===== src/Validation/AcceptBlock/Raises.antt =====
-- What the loops of `accept_new_block` of validation/chainview.py raise, when a rule is broken.
use ledger_sim.Prelude.{
  ℕ, ◌≡◌, ◌≢◌, refl, Bool, false, Option, none, some, List, [], ◌∷◌, ◌++◌, Bytes, ltb, All,
  IsDistinct, ◌≤◌, arith, Bool-cases, inl, inr,
}
use ledger_sim.Prelude.Dict.{Dict, lookup}
use ledger_sim.Prelude.Int.{◌<ℤ◌}
use ledger_sim.Errors.{
  ok, raise, Exception, fail, raise_if, for_each, coin_amount_exceeds_maximum, double_spend,
  unknown_unspent, wrong_puzzle_hash,
}
use ledger_sim.Externals.{Externals}
use ledger_sim.Hashable.Coin.{Coin, name}
use ledger_sim.Hashable.Unspent.{Unspent}
use ledger_sim.Validation.AcceptBlock.{
  max_coin_amount, Cpc, count_in, raise_if_repeated, no_repeats, check_amounts, is_added,
  check_puzzle_hashes, check_unspent, check_removal, Tip, unspents,
}
use ledger_sim.Validation.AcceptBlock.Counter.{no_repeats_iff}
use ledger_sim.Validation.AcceptBlock.Parts.{check_amounts_iff, check_puzzle_hashes_iff}
use ledger_sim.Validation.AcceptBlock.Spent.{
  lookup-coin_to_unspent, answer, answer_sound, FromChain, check_one,
}

-- A loop that raises one exception and does not return raises it.
for_each-raises {ℓ} :
    {A : Type ℓ} (test : A → Bool) (e : Exception) (as' : List A)
    → for_each (λ a. raise_if (test a) e) as' ≢ ok tt
    → for_each (λ a. raise_if (test a) e) as' ≡ raise e
for_each-raises test e [] stays = absurd (stays refl)
for_each-raises test e (a ∷ as') stays = elim (Bool-cases (test a)) [
  | inl raises ↦ rw raises refl
  | inr passes ↦ rw passes (for_each-raises test e as' (λ h. stays (rw passes h)))
]

raise_if_repeated-raises :
    (e : Exception) (d : Dict ℕ) → raise_if_repeated e d ≢ ok tt → raise_if_repeated e d ≡ raise e
unfolding raise_if_repeated
raise_if_repeated-raises e [] stays = absurd (stays refl)
raise_if_repeated-raises e ((k, v) ∷ d) stays = elim (Bool-cases (ltb 1 v)) [
  | inl raises ↦ rw raises refl
  | inr passes ↦ rw passes (raise_if_repeated-raises e d (λ h. stays (rw passes h)))
]

pub no_repeats-raises :
    (e : Exception) (ns : List Bytes) → ¬ IsDistinct ns → no_repeats e ns ≡ raise e
unfolding no_repeats
no_repeats-raises e ns repeated =
    raise_if_repeated-raises e (count_in ns []) (λ h. repeated ((no_repeats_iff e ns).0 h))

pub check_amounts-raises :
    (additions : List Coin)
    → ¬ All (λ c. c.amount <ℤ max_coin_amount) additions
    → check_amounts additions ≡ raise (fail coin_amount_exceeds_maximum)
unfolding check_amounts
check_amounts-raises additions large =
    for_each-raises _ _ additions (λ h. large ((check_amounts_iff additions).0 h))

pub check_puzzle_hashes-raises :
    (cs : List Cpc)
    → ¬ All (λ c. c.puzzle_hash ≡ c.coin.puzzle_hash) cs
    → check_puzzle_hashes cs ≡ raise (fail wrong_puzzle_hash)
unfolding check_puzzle_hashes
check_puzzle_hashes-raises cs wrong =
    for_each-raises _ _ cs (λ h. wrong ((check_puzzle_hashes_iff cs).0 h))

module _ (tip : Tip) where
  -- What the chain's database says of a coin that is spent once more
  pub record IsSpentAt (u : Unspent) : Type 0 where
    pub confirmed : 1 ≤ u.confirmed_block_index
    pub not_later : u.confirmed_block_index ≤ tip.tip_index
    pub was_spent : 1 ≤ u.spent_block_index
    pub spent_before : u.spent_block_index ≤ tip.tip_index

  -- What the chain's database says of a coin that it does not have up to the tip: nothing, or that the coin is
  -- confirmed later, or that it was never confirmed
  abbrev pub IsUnknown : Option Unspent → Type 0
  IsUnknown o =
      (u : Unspent)
      → o ≡ some u
      → 1 ≤ u.confirmed_block_index
      → u.confirmed_block_index ≤ tip.tip_index
      → ⊥

  pub check_unspent-spent :
      (u : Unspent) → IsSpentAt u → check_unspent tip.tip_index (some u) ≡ raise (fail double_spend)
  unfolding check_unspent
  check_unspent-spent u h = ground (arith, h.confirmed, h.not_later, h.was_spent, h.spent_before)

  pub check_unspent-unknown :
      (o : Option Unspent)
      → IsUnknown o
      → check_unspent tip.tip_index o ≡ raise (fail unknown_unspent)
  unfolding check_unspent
  check_unspent-unknown none h = refl
  check_unspent-unknown (some u) h = ground (arith, h u refl)

module _ (x : Externals) (tip : Tip) (additions : List Coin) where
  pub answer-IsUnknown :
      (n : Bytes) → IsUnknown tip (tip.unspent_db n) → IsUnknown tip (answer x tip additions n)
  answer-IsUnknown n h u e early late = h u (answer_sound x tip additions n u e late) early late

  check_removal-raises :
      (d : Dict (Option Unspent)) (c : Cpc) (e : Exception)
      → lookup (name x c.coin) d ≡ some (answer x tip additions (name x c.coin))
      → is_added c.coin additions ≡ false
      → check_unspent tip.tip_index (answer x tip additions (name x c.coin)) ≡ raise e
      → check_removal x additions d tip.tip_index c ≡ raise e
  unfolding check_removal
  check_removal-raises d c e known other refused = rw (other, known) refused

  -- The loop raises what the first bad coin raises.
  check_each-raises :
      (d : Dict (Option Unspent)) (before : List Cpc) (c : Cpc) (after : List Cpc) (e : Exception)
      → All
          (λ b. lookup (name x b.coin) d ≡ some (answer x tip additions (name x b.coin)))
          (before ++ c ∷ after)
      → All (FromChain x tip additions) before
      → is_added c.coin additions ≡ false
      → check_unspent tip.tip_index (answer x tip additions (name x c.coin)) ≡ raise e
      → for_each (check_removal x additions d tip.tip_index) (before ++ c ∷ after) ≡ raise e
  check_each-raises d [] c after e known good other refused =
      rw (check_removal-raises d c e known.0 other refused) refl
  check_each-raises d (b ∷ before) c after e known good other refused =
      rw ((check_one x tip additions d b known.0).1 good.0)
        (check_each-raises d before c after e known.1 good.1 other refused)

  pub check_removals-raises :
      (before : List Cpc) (c : Cpc) (after : List Cpc) (e : Exception)
      → All (FromChain x tip additions) before
      → is_added c.coin additions ≡ false
      → check_unspent tip.tip_index (answer x tip additions (name x c.coin)) ≡ raise e
      → for_each
          (check_removal x additions (unspents x tip additions (before ++ c ∷ after)) tip.tip_index)
          (before ++ c ∷ after)
        ≡ raise e
  unfolding unspents
  check_removals-raises before c after e good other refused =
      check_each-raises (unspents x tip additions (before ++ c ∷ after)) before c after e
        (lookup-coin_to_unspent x (answer x tip additions) (before ++ c ∷ after)) good other refused
