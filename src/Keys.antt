-- ===== src/Keys.antt =====
-- hack/keys.py: the keys of a fixed seed, the keychain of the first ten, and bundles that spend one coin.
pub mod Valid
use ledger_sim.Prelude.{ℕ, List, [], ◌∷◌, Bytes, map}
use ledger_sim.Prelude.Int.{ℤ}
use ledger_sim.Errors.{Res, ok, raise, map_res, ◌>>=◌}
use ledger_sim.Externals.{Externals, SExp, bytes}
use ledger_sim.Hashable.Coin.{Coin}
use ledger_sim.Hashable.Program.{tree_hash}
use ledger_sim.Hashable.SpendBundle.{CoinSolution, SpendBundle}
use ledger_sim.Validation.Conditions.{Condition, make_create_coin_condition}
use ledger_sim.Wallet.BlsPrivateKey.{secret_exponent}
use ledger_sim.Wallet.Keychain.{Keychain, add_secret_exponents, signature_for_solution}
use ledger_sim.Pool.{seed}
use ledger_sim.Puzzles.P2DelegatedPuzzle.{puzzle_for_pk, solution_for_conditions}

module _ (x : Externals) where
  open x use {PrivateKey}

  unfoldable pub bls_private_key_for_index : ℕ → Res PrivateKey
  bls_private_key_for_index index =
      x.private_key_from_bytes (x.private_key_bytes (x.private_child seed index))

  -- An extended key has the public key of its private key.
  unfoldable pub public_key_bytes_for_index : ℕ → Bytes
  public_key_bytes_for_index index =
      x.public_key_bytes (x.public_key_of (x.private_child seed index))

  unfoldable pub puzzle_program_for_index : ℕ → Res SExp
  puzzle_program_for_index index = puzzle_for_pk x (public_key_bytes_for_index index)

  unfoldable pub puzzle_hash_for_index : ℕ → Res Bytes
  puzzle_hash_for_index index = do
    program ← puzzle_program_for_index index
    ok (tree_hash x program)

  -- The amounts are cast when the conditions go into a program.
  unfoldable pub conditions_for_payment : List (Bytes × ℤ) → List Condition
  conditions_for_payment puzzle_hash_amount_pairs =
      map (λ (t : Bytes × ℤ). make_create_coin_condition (bytes t.0) (bytes (x.int_to_bytes t.1)))
        puzzle_hash_amount_pairs

  unfoldable pub make_default_keychain : Res (Keychain x)
  make_default_keychain = do
    private_keys ← map_res bls_private_key_for_index (0 ∷ 1 ∷ 2 ∷ 3 ∷ 4 ∷ 5 ∷ 6 ∷ 7 ∷ 8 ∷ 9 ∷ [])
    let (added, keychain) = add_secret_exponents x (map (secret_exponent x) private_keys) []
    done ← added
    ok keychain

  unfoldable pub build_spend_bundle : Coin → SExp → Keychain x → Res SpendBundle
  build_spend_bundle coin solution keychain = do
    signature ← signature_for_solution x keychain solution
    ok (record {
      coin_solutions = record { coin = coin; solution = solution } ∷ [];
      aggregated_signature = signature;
    })

  unfoldable pub spend_coin : Coin → SExp → ℕ → Keychain x → Res SpendBundle
  spend_coin coin conditions index keychain = do
    program ← puzzle_program_for_index index
    solution ← solution_for_conditions x program conditions
    build_spend_bundle coin solution keychain
