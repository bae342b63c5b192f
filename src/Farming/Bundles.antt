-- ===== src/Farming/Bundles.antt =====
-- The fees of the bundle that `SpendBundle.aggregate` of hashable/SpendBundle.py makes.
use ledger_sim.Prelude.{◌≡◌, refl, sym, ap, ap₂, ◌∙◌, List, [], ◌∷◌, ◌++◌, map}
use mathlib.Core.List.{append_assoc, map-append}
use ledger_sim.Prelude.Int.{ℤ, ◌+ℤ◌, ◌-ℤ◌, sum_ℤ, sum_ℤ-append, int_laws}
use ledger_sim.Errors.{ok, map_res, >>=-eq-ok, ok-injective}
use ledger_sim.Externals.{Externals}
use ledger_sim.Hashable.Coin.{Coin, name}
use ledger_sim.Hashable.BlsSignature.{aggregate}
use ledger_sim.Hashable.SpendBundle.{
  CoinSolution, SpendBundle, all_coin_solutions, aggregate_bundles, removals,
}
use ledger_sim.Validation.AcceptBlock.Parts.{amounts_out}
use ledger_sim.Wallet.Deltas.{
  additions_for_solution, additions_for_solutions, bundle_additions, fees,
}

abbrev coins_of : List CoinSolution → List Coin
coins_of ss = map (λ (s : CoinSolution). s.coin) ss

amounts_out-append :
    (as' bs : List Coin) → amounts_out (as' ++ bs) ≡ amounts_out as' +ℤ amounts_out bs
amounts_out-append as' bs = ap sum_ℤ (map-append (λ (c : Coin). c.amount) as' bs) ∙ sum_ℤ-append _ _

sum_step : (p q n l f r : ℤ) → p -ℤ n ≡ f → q -ℤ l ≡ r → p +ℤ q -ℤ (n +ℤ l) ≡ f +ℤ r
sum_step p q n l f r e h = rw (← e, ← h) (omega int_laws)

module _ (x : Externals) where
  additions-append :
      (ss ts : List CoinSolution) (as' bs : List Coin)
      → additions_for_solutions x ss ≡ ok as'
      → additions_for_solutions x ts ≡ ok bs
      → additions_for_solutions x (ss ++ ts) ≡ ok (as' ++ bs)
  unfolding additions_for_solutions
  additions-append [] ts as' bs e f = rw (← ok-injective e) f
  additions-append (s ∷ ss) ts as' bs e f =
      let (items, e1, k1) = >>=-eq-ok (additions_for_solution x (name x s.coin) s.solution) _ e in
      let (more, e2, k2) = >>=-eq-ok (additions_for_solutions x ss) _ k1 in
      rw (e1, additions-append ss ts more bs e2 f)
        (ap ok (sym (append_assoc items more bs) ∙ ap (λ l. l ++ bs) (ok-injective k2)))

  -- the additions of one bundle with known fees
  fees-additions :
      (b : SpendBundle) (f : ℤ)
      → fees x b ≡ ok f
      → (adds : List Coin) × (additions_for_solutions x b.coin_solutions ≡ ok adds)
        × (amounts_out (coins_of b.coin_solutions) -ℤ amounts_out adds ≡ f)
  unfolding fees bundle_additions removals
  fees-additions b f e =
      let (adds, e1, k) = >>=-eq-ok (additions_for_solutions x b.coin_solutions) _ e in
      (adds, e1, ok-injective k)

  all-additions :
      (bs : List SpendBundle) (fs : List ℤ)
      → map_res (fees x) bs ≡ ok fs
      → (adds : List Coin) × (additions_for_solutions x (all_coin_solutions x bs) ≡ ok adds)
        × (amounts_out (coins_of (all_coin_solutions x bs)) -ℤ amounts_out adds ≡ sum_ℤ fs)
  unfolding all_coin_solutions additions_for_solutions sum_ℤ
  all-additions [] fs e = ([], refl, rw (← ok-injective e) (omega int_laws))
  all-additions (b ∷ bs) fs e =
      let (f, e1, k1) = >>=-eq-ok (fees x b) _ e in
      let (rest, e2, k2) = >>=-eq-ok (map_res (fees x) bs) _ k1 in
      let (now, a1, s1) = fees-additions b f e1 in
      let (later, a2, s2) = all-additions bs rest e2 in
      (
        now ++ later,
        additions-append b.coin_solutions (all_coin_solutions x bs) now later a1 a2,
        ap₂ (λ u v. u -ℤ v)
              (ap amounts_out (
                  map-append (λ (s : CoinSolution). s.coin) b.coin_solutions
                    (all_coin_solutions x bs))
                ∙ amounts_out-append (coins_of b.coin_solutions)
                    (coins_of (all_coin_solutions x bs)))
              (amounts_out-append now later)
            ∙ (sum_step _ _ _ _ f (sum_ℤ rest) s1 s2 ∙ ap sum_ℤ (ok-injective k2)),
      )

  -- The fees of an aggregate of bundles whose fees are known are the sum of those.
  pub fees-aggregate_bundles :
      (bs : List SpendBundle) (fs : List ℤ) (b : SpendBundle)
      → map_res (fees x) bs ≡ ok fs
      → aggregate_bundles x bs ≡ ok b
      → fees x b ≡ ok (sum_ℤ fs)
  unfolding aggregate_bundles fees bundle_additions removals
  fees-aggregate_bundles bs fs b e h =
      let (signature, e1, k) = >>=-eq-ok (aggregate x _) _ h in
      let (adds, a, total) = all-additions bs fs e in rw (← ok-injective k) (rw a (ap ok total))
