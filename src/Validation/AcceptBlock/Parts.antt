-- ===== src/Validation/AcceptBlock/Parts.antt =====
-- What the single checks of `accept_new_block` say.
use ledger_sim.Prelude.{
  ◌≡◌, refl, Bool, true, false, not, ◌↔◌, List, [], ◌∷◌, bytes_eq, bytes_eq_iff, map, arith, All,
  All-map,
}
use ledger_sim.Prelude.Int.{ℤ, pos, ◌+ℤ◌, ◌-ℤ◌, ◌<ℤ◌, leb_ℤ, int_laws, sum_ℤ, sub-add-eq_iff}
use ledger_sim.Errors.{ok, raise_if-eq-ok, for_each_iff}
use ledger_sim.Hashable.Coin.{Coin}
use ledger_sim.Validation.AcceptBlock.{
  max_coin_amount, Cpc, subtract_all, add_all, check_amounts, check_puzzle_hashes,
}

abbrev pub amounts_in : List Cpc → ℤ
amounts_in cs = sum_ℤ (map (λ (c : Cpc). c.coin.amount) cs)

abbrev pub amounts_out : List Coin → ℤ
amounts_out cs = sum_ℤ (map (λ (c : Coin). c.amount) cs)

subtract_all_lem : (fees : ℤ) (cs : List Cpc) → subtract_all fees cs ≡ fees -ℤ amounts_in cs
unfolding subtract_all sum_ℤ
subtract_all_lem fees [] = omega int_laws
subtract_all_lem fees (c ∷ cs) = rw (subtract_all_lem (fees -ℤ c.coin.amount) cs) (omega int_laws)

add_all_lem : (fees : ℤ) (cs : List Coin) → add_all fees cs ≡ fees +ℤ amounts_out cs
unfolding add_all sum_ℤ
add_all_lem fees [] = omega int_laws
add_all_lem fees (c ∷ cs) = rw (add_all_lem (fees +ℤ c.amount) cs) (omega int_laws)

-- The fees are what goes out less what comes in.
pub fees_lem :
    (cpcs : List Cpc) (additions : List Coin) (reward : ℤ)
    → (add_all (subtract_all (pos 0) cpcs) additions ≡ reward)
      ↔ (amounts_out additions ≡ amounts_in cpcs +ℤ reward)
fees_lem cpcs additions reward = rw (subtract_all_lem (pos 0) cpcs) (
    rw (add_all_lem (pos 0 -ℤ amounts_in cpcs) additions)
      (sub-add-eq_iff (amounts_out additions) (amounts_in cpcs) reward))

-- The loop over the amounts
pub check_amounts_iff :
    (additions : List Coin)
    → (check_amounts additions ≡ ok tt) ↔ All (λ c. c.amount <ℤ max_coin_amount) additions
unfolding check_amounts
check_amounts_iff additions =
    let (to, from) = for_each_iff _ additions in
    (
      λ h.
          All-map additions
            (λ c e. ground (arith, raise_if-eq-ok (leb_ℤ max_coin_amount c.amount) _ e)) (to h),
      λ h. from (All-map additions (λ c l. rw (not_leb c l)) h),
    )
  where
    not_leb : (c : Coin) → c.amount <ℤ max_coin_amount → leb_ℤ max_coin_amount c.amount ≡ false
    not_leb c l = ground arith

pub check_puzzle_hashes_iff :
    (cs : List Cpc)
    → (check_puzzle_hashes cs ≡ ok tt) ↔ All (λ c. c.puzzle_hash ≡ c.coin.puzzle_hash) cs
unfolding check_puzzle_hashes
check_puzzle_hashes_iff cs =
    let (to, from) = for_each_iff _ cs in
    (
      λ h.
          All-map cs
            (λ c e.
              (bytes_eq_iff c.puzzle_hash c.coin.puzzle_hash).0
                (not_false (bytes_eq c.puzzle_hash c.coin.puzzle_hash) (raise_if-eq-ok _ _ e)))
            (to h),
      λ h. from (All-map cs (λ c e. rw ((bytes_eq_iff c.puzzle_hash c.coin.puzzle_hash).1 e)) h),
    )
  where
    not_false : (b : Bool) → not b ≡ false → b ≡ true
    not_false true e = refl
    not_false false e = cc
