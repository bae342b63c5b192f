-- ===== src/Wallet/Keychain/Kept.antt =====
-- What `add_secret_exponents` of wallet/keychain.py makes of a keychain.
use ledger_sim.Prelude.{
  ℕ, ◌≡◌, refl, sym, ap, ◌∙◌, Bool, true, false, some, some_inj, List, [], ◌∷◌, Bytes, bytes_eq,
  bytes_eq_iff, if◌then◌else◌,
}
use ledger_sim.Prelude.Dict.{lookup, insert, lookup-insert}
use ledger_sim.Errors.{Res, ok, raise, value_error, >>=-eq-ok, >>-eq-ok, raise_if, ok-injective}
use ledger_sim.Externals.{Externals}
use ledger_sim.Atoms.SizedBytes.{sized}
use ledger_sim.Wallet.BlsPrivateKey
use ledger_sim.Wallet.Keychain.{Keychain, key_pair, add_secret_exponents}

-- Each key stands under its public key.
pub record IsKeychain (x : Externals) (keychain : Keychain x) : Type 0 where
  pub at :
      (pk : Bytes) (k : x.PrivateKey)
      → lookup pk keychain ≡ some k
      → x.public_key_bytes (x.public_key_of k) ≡ pk

pub sized-eq-ok : (n : ℕ) (b v : Bytes) → sized n b ≡ ok v → v ≡ b
unfolding sized
sized-eq-ok n b v e = let (u, k) = >>-eq-ok (raise_if _ value_error) _ e in sym (ok-injective k)

module _ (x : Externals) where
  key_pair-key :
      (e : ℕ) (pk : Bytes) (k : x.PrivateKey)
      → key_pair x e ≡ ok (pk, k)
      → x.public_key_bytes (x.public_key_of k) ≡ pk
  unfolding key_pair BlsPrivateKey.public_key
  key_pair-key e pk k h =
      let (made, e1, k1) = >>=-eq-ok (BlsPrivateKey.from_secret_exponent x e) _ h in
      let (public, e2, k2) = >>=-eq-ok (BlsPrivateKey.public_key x made) _ k1 in
      let both = ok-injective k2 in
      ap (λ (t : Bytes × x.PrivateKey). x.public_key_bytes (x.public_key_of t.1)) (sym both)
      ∙ (sym (sized-eq-ok 48 (x.public_key_bytes (x.public_key_of made)) public e2)
          ∙ ap (λ (t : Bytes × x.PrivateKey). t.0) both)

  -- Adding exponents, of which one may raise, keeps each key under its public key.
  pub add_secret_exponents-IsKeychain :
      (es : List ℕ) (keychain : Keychain x)
      → IsKeychain x keychain
      → IsKeychain x (add_secret_exponents x es keychain).1
  unfolding add_secret_exponents
  add_secret_exponents-IsKeychain [] keychain sound = sound
  add_secret_exponents-IsKeychain (e ∷ es) keychain sound =
      go (add_secret_exponents-IsKeychain es) (key_pair x e) refl
    where
      go :
          ((kc : Keychain x) → IsKeychain x kc → IsKeychain x (add_secret_exponents x es kc).1)
          → (r : Res (Bytes × x.PrivateKey)) → key_pair x e ≡ r
          → IsKeychain x (add_secret_exponents x (e ∷ es) keychain).1
      go later (raise ex) h = rw (h, add_secret_exponents) sound
      go later (ok (pk, key)) h =
          rw (h, add_secret_exponents)
            (later (insert pk key keychain) (record {
              at = λ n k found.
                  pick n k (bytes_eq pk n) refl (sym (lookup-insert pk n key keychain) ∙ found);
            }))
        where
          pick :
              (n : Bytes) (k : x.PrivateKey) (c : Bool)
              → bytes_eq pk n ≡ c
              → (if c then some key else lookup n keychain) ≡ some k
              → x.public_key_bytes (x.public_key_of k) ≡ n
          pick n k true same e' =
              ap (λ j. x.public_key_bytes (x.public_key_of j)) (sym (some_inj e'))
              ∙ (key_pair-key e pk key h ∙ (bytes_eq_iff pk n).0 same)
          pick n k false other e' = sound.at n k e'
