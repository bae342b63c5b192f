-- ===== src/Tests/Signed.antt =====
-- A keychain with one key, and a bundle that it signs.
use ledger_sim.Atoms.HashPointer.{checked_preimage, obj}
use ledger_sim.Atoms.SizedBytes.{sized}
use ledger_sim.Hashable.Blocks.{body_obj}
use ledger_sim.Hashable.BlsSignature.{
  aggregate, aggregate_nonzero, aggsig_pair, nonzero, or_false, validate,
}
use ledger_sim.Hashable.Coin.{
  new_coin, coin_eq, coin_bytes, coin_from_bytes, std_hash, name, coin_obj,
}
use ledger_sim.Hashable.Program.{listp, first, rest, tree_hash, run}
use ledger_sim.Prelude.Dict.{lookup, insert}
use ledger_sim.Prelude.Int.{◌+ℤ◌, ◌-ℤ◌}
use ledger_sim.Validation.Conditions.{
  condition_of_items, parse_sexp_to_condition, parse_iter, parse_sexp_to_conditions, bytes_lt,
  insert_opcode, sorted_opcodes, empty_lists, append_condition, append_conditions,
  conditions_by_opcode,
}
use ledger_sim.Validation.Consensus.{
  validate_spend_bundle_signature, bytes_of, conditions_for_solution, conditions_dict_for_solution,
  created_output, created_outputs_for_conditions_dict, hash_key_pair,
  hash_key_pairs_for_conditions_dict,
}
use ledger_sim.Prelude.{
  bytes_eq, elem, ◌≡◌, refl, sym, ap, bytes_eq_iff, true, [], ◌∷◌, Bytes, replicate,
}
use ledger_sim.Errors.{ok, ok-injective}
use ledger_sim.Externals.{SExp, atom}
use ledger_sim.Hashable.SpendBundle.{SpendBundle}
use ledger_sim.Atoms.BigEndian.{big_endian}
use ledger_sim.Wallet.BlsPrivateKey.{
  from_secret_exponent, sign as sign_with, public_key as public_key_of_private,
}
use ledger_sim.Wallet.Keychain.{
  Keychain, key_pair, add_secret_exponents, sign, signature_for_solution,
}
use ledger_sim.Wallet.Keychain.Signs.{BlsWorks}
use ledger_sim.Wallet.Keychain.Kept.{IsKeychain, add_secret_exponents-IsKeychain}
use ledger_sim.Keys.{build_spend_bundle}
use ledger_sim.Keys.Valid.{validate_spend_bundle_signature-build_spend_bundle}
use ledger_sim.Tests.Toy.{toy, list_sexp}
use ledger_sim.Tests.Block.{old_coin}

toy_bls : BlsWorks toy
toy_bls = record {
  reads_key = λ k. refl;
  reads_signature = λ s. refl;
  not_zero = λ k h e. cc;
  verifies = λ k h signed total e. ap ok ((bytes_eq_iff total _).1 (sym (ok-injective e)));
}

abbrev keychain : Keychain toy
keychain = (add_secret_exponents toy (3 ∷ []) []).1

keychain-IsKeychain : IsKeychain toy keychain
unfolding lookup
keychain-IsKeychain = add_secret_exponents-IsKeychain toy (3 ∷ []) [] (record { at = λ pk k e. cc })

-- the public key of the exponent 3
abbrev signer : Bytes
signer = toy.public_key_of (big_endian 32 3)

-- A quoted list of one condition, which wants a signature
abbrev signed_solution : SExp
signed_solution = list_sexp (
    list_sexp (list_sexp (atom (50 ∷ []) ∷ atom signer ∷ atom (replicate 32 8) ∷ []) ∷ [])
    ∷ atom []
    ∷ [])

abbrev signed_bundle : SpendBundle
signed_bundle = record {
  coin_solutions = record { coin = old_coin; solution = signed_solution } ∷ [];
  aggregated_signature = record {
    sig = toy.sign_prepend_prehashed (big_endian 32 3) (replicate 32 8);
  };
}

bundle_built : build_spend_bundle toy old_coin signed_solution keychain ≡ ok signed_bundle
unfolding elem bytes_eq bytes_of conditions_for_solution conditions_dict_for_solution created_output
    created_outputs_for_conditions_dict hash_key_pair hash_key_pairs_for_conditions_dict
    condition_of_items parse_sexp_to_condition parse_iter parse_sexp_to_conditions bytes_lt
    insert_opcode sorted_opcodes empty_lists append_condition append_conditions conditions_by_opcode
    listp first rest tree_hash run new_coin coin_eq coin_bytes coin_from_bytes std_hash name
    coin_obj aggregate aggregate_nonzero aggsig_pair nonzero or_false validate body_obj
    checked_preimage obj sized ◌+ℤ◌ ◌-ℤ◌ build_spend_bundle big_endian signature_for_solution sign
    key_pair add_secret_exponents from_secret_exponent sign_with public_key_of_private insert lookup
bundle_built = refl

validate_spend_bundle_signature-build_spend_bundle_example :
    validate_spend_bundle_signature toy signed_bundle ≡ ok true
validate_spend_bundle_signature-build_spend_bundle_example =
    validate_spend_bundle_signature-build_spend_bundle toy toy_bls keychain keychain-IsKeychain
      old_coin signed_solution signed_bundle bundle_built
