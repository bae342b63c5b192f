-- ===== src/Keys/Valid.antt =====
-- The bundles that hack/keys.py builds, and the check of a bundle's signature.
use ledger_sim.Prelude.{◌≡◌, true}
use mathlib.Core.List.{append-nil}
use mathlib.Core.Path.{subst}
use ledger_sim.Errors.{ok, map_res, >>=-eq-ok, ok-injective}
use ledger_sim.Externals.{Externals, SExp}
use ledger_sim.Hashable.Coin.{Coin}
use ledger_sim.Hashable.SpendBundle.{SpendBundle}
use ledger_sim.Validation.Conditions.{conditions_by_opcode}
use ledger_sim.Validation.Consensus.{
  conditions_for_solution, conditions_dict_for_solution, hash_key_pairs_for_conditions_dict,
  hash_key_pairs_for_solution, hash_key_pairs_for_solutions, validate_spend_bundle_signature,
}
use ledger_sim.Wallet.Keychain.{Keychain, sign, signature_for_solution}
use ledger_sim.Wallet.Keychain.Signs.{BlsWorks, validate-aggregate}
use ledger_sim.Wallet.Keychain.Kept.{IsKeychain}
use ledger_sim.Keys.{build_spend_bundle}

module _ (x : Externals) (works : BlsWorks x) (keychain : Keychain x)
    (sound : IsKeychain x keychain) where
  -- Where blspy keeps its promises and each key of the keychain stands under its public key, a bundle that
  -- `build_spend_bundle` returns has a valid signature.
  pub validate_spend_bundle_signature-build_spend_bundle :
      (coin : Coin) (solution : SExp) (bundle : SpendBundle)
      → build_spend_bundle x coin solution keychain ≡ ok bundle
      → validate_spend_bundle_signature x bundle ≡ ok true
  unfolding build_spend_bundle signature_for_solution validate_spend_bundle_signature
      hash_key_pairs_for_solutions hash_key_pairs_for_solution conditions_dict_for_solution
  validate_spend_bundle_signature-build_spend_bundle coin solution bundle e =
      let (total, e1, k1) = >>=-eq-ok (signature_for_solution x keychain solution) _ e in
      let (conditions, e2, k2) = >>=-eq-ok (conditions_for_solution x solution) _ e1 in
      let (pairs, e3, k3) =
        >>=-eq-ok (hash_key_pairs_for_conditions_dict (conditions_by_opcode conditions)) _ k2 in
      let (signatures, e4, k4) = >>=-eq-ok (map_res (sign x keychain) pairs) _ k3 in
      subst (λ b. validate_spend_bundle_signature x b ≡ ok true) (ok-injective k1)
        (rw (e2, e3, append-nil pairs)
          (validate-aggregate x works keychain sound pairs signatures total e4 k4))
