-- ===== src/Wallet/Keychain/Signs.antt =====
-- Whether what a keychain signs is accepted.
use ledger_sim.Prelude.{
  ◌≡◌, ◌≢◌, refl, sym, ap, ◌∙◌, true, false, List, [], ◌∷◌, Bytes, bytes_eq, bytes_eq-of_ne, map,
}
use mathlib.Core.Path.{subst}
use ledger_sim.Prelude.Dict.{lookup}
use ledger_sim.Errors.{
  Res, ok, map_res, or_raise, value_error, >>=-eq-ok, ok-injective, or_raise-eq-ok, ◌>>=◌,
}
use ledger_sim.Externals.{Externals}
use ledger_sim.Atoms.SizedBytes.{sized}
use ledger_sim.Hashable.Message.{AggsigPair}
use ledger_sim.Hashable.BlsSignature.{
  BlsSignature, zero96, nonzero, aggregate_nonzero, aggregate, or_false, validate,
}
use ledger_sim.Wallet.BlsPrivateKey
use ledger_sim.Wallet.Keychain.{Keychain, sign}
use ledger_sim.Wallet.Keychain.Kept.{IsKeychain, sized-eq-ok}

-- What blspy promises: what it serializes it reads back, a signature is not the one of zeros, and an
-- aggregate of signatures is one of all the messages together.
pub record BlsWorks (x : Externals) : Type 0 where
  pub reads_key :
      (k : x.PrivateKey)
      → x.public_key_from_bytes (x.public_key_bytes (x.public_key_of k)) ≡ ok (x.public_key_of k)
  pub reads_signature : (s : x.PrependSignature) → x.signature_from_bytes (x.serialize s) ≡ ok s
  pub not_zero :
      (k : x.PrivateKey) (h : Bytes) → x.serialize (x.sign_prepend_prehashed k h) ≢ zero96
  pub verifies :
      (k : x.PrivateKey) (h : Bytes) (signed : List (x.PrivateKey × Bytes))
      (total : x.PrependSignature)
      → x.aggregate
          (map (λ (t : x.PrivateKey × Bytes). x.sign_prepend_prehashed t.0 t.1) ((k, h) ∷ signed))
        ≡ ok total
      → x.verify total
          (map (λ (t : x.PrivateKey × Bytes). t.1) ((k, h) ∷ signed))
          (map (λ (t : x.PrivateKey × Bytes). x.public_key_of t.0) ((k, h) ∷ signed))
        ≡ ok true

module _ (x : Externals) where
  module _ (works : BlsWorks x) (keychain : Keychain x) (sound : IsKeychain x keychain) where
    -- the keys that signed some pairs, with the message hashes
    abbrev IsSigned : List AggsigPair → List BlsSignature → List (x.PrivateKey × Bytes) → Type 0
    IsSigned pairs signatures signed =
        (map (λ (q : AggsigPair). q.message_hash) pairs
          ≡ map (λ (t : x.PrivateKey × Bytes). t.1) signed)
        × (map_res (λ (q : AggsigPair). x.public_key_from_bytes q.public_key) pairs
            ≡ ok (map (λ (t : x.PrivateKey × Bytes). x.public_key_of t.0) signed))
        × (map_res (λ (s : BlsSignature). x.signature_from_bytes s.sig) signatures
            ≡ ok (map (λ (t : x.PrivateKey × Bytes). x.sign_prepend_prehashed t.0 t.1) signed))
        × (nonzero signatures ≡ signatures)

    -- one signature
    signed_pair :
        (p : AggsigPair) (s : BlsSignature)
        → sign x keychain p ≡ ok s
        → (k : x.PrivateKey) × (x.public_key_bytes (x.public_key_of k) ≡ p.public_key)
          × (s.sig ≡ x.serialize (x.sign_prepend_prehashed k p.message_hash))
    unfolding sign BlsPrivateKey.sign
    signed_pair p s e =
        let (k, held, e1) = >>=-eq-ok (or_raise value_error (lookup p.public_key keychain)) _ e in
        let (v, made, e2) =
          >>=-eq-ok (sized 96 (x.serialize (x.sign_prepend_prehashed k p.message_hash))) _ e1 in
        (
          k,
          sound.at p.public_key k
              (or_raise-eq-ok value_error (lookup p.public_key keychain) k held),
          ap (λ (t : BlsSignature). t.sig) (sym (ok-injective e2)) ∙ sized-eq-ok 96 _ v made,
        )

    map_res-IsSigned :
        (pairs : List AggsigPair) (signatures : List BlsSignature)
        → map_res (sign x keychain) pairs ≡ ok signatures
        → (signed : List (x.PrivateKey × Bytes)) × IsSigned pairs signatures signed
    unfolding nonzero
    map_res-IsSigned [] signatures e =
        subst (λ ss. (signed : List (x.PrivateKey × Bytes)) × IsSigned [] ss signed)
          (ok-injective e) ([], (refl, refl, refl, refl))
    map_res-IsSigned (p ∷ ps) signatures e =
        let (s, e1, k1) = >>=-eq-ok (sign x keychain p) _ e in
        let (ss, e2, k2) = >>=-eq-ok (map_res (sign x keychain) ps) _ k1 in
        let (k, public, made) = signed_pair p s e1 in
        let (signed, (hashes, keys, sigs, kept)) = map_res-IsSigned ps ss e2 in
        let read_key : x.public_key_from_bytes p.public_key ≡ ok (x.public_key_of k) =
          subst (λ b. x.public_key_from_bytes b ≡ ok (x.public_key_of k)) public
            (works.reads_key k) in
        let read_sig : x.signature_from_bytes s.sig
            ≡ ok (x.sign_prepend_prehashed k p.message_hash) =
          ap x.signature_from_bytes made
          ∙ works.reads_signature (x.sign_prepend_prehashed k p.message_hash) in
        let not_zeros : bytes_eq s.sig zero96 ≡ false =
          ap (λ b. bytes_eq b zero96) made
          ∙ bytes_eq-of_ne (x.serialize (x.sign_prepend_prehashed k p.message_hash)) zero96
              (works.not_zero k p.message_hash) in
        subst (λ l. (signed' : List (x.PrivateKey × Bytes)) × IsSigned (p ∷ ps) l signed')
          (ok-injective k2)
          (
            (k, p.message_hash) ∷ signed,
            (
              ap (λ hs. p.message_hash ∷ hs) hashes,
              rw (read_key, keys) refl,
              rw (read_sig, sigs) refl,
              rw (not_zeros, kept) refl,
            ),
          )

    -- What was read and verified is accepted.
    validate-verified :
        (p : AggsigPair) (ps : List AggsigPair) (s : BlsSignature) (keys : List x.PublicKey)
        (total : x.PrependSignature)
        → map_res (λ (q : AggsigPair). x.public_key_from_bytes q.public_key) (p ∷ ps) ≡ ok keys
        → x.signature_from_bytes s.sig ≡ ok total
        → x.verify total (map (λ (q : AggsigPair). q.message_hash) (p ∷ ps)) keys ≡ ok true
        → validate x s (p ∷ ps) ≡ ok true
    unfolding validate or_false
    validate-verified p ps s keys total read read_total verified =
        let hashes = map (λ (q : AggsigPair). q.message_hash) (p ∷ ps) in
        ap
          (λ (r : Res (List x.PublicKey)). r >>= λ pks.
            ok (or_false x (x.signature_from_bytes s.sig >>= λ t. x.verify t hashes pks)))
          read
        ∙ (ap (λ (r : Res x.PrependSignature). ok (or_false x (r >>= λ t. x.verify t hashes keys)))
              read_total
            ∙ ap (λ r. ok (or_false x r)) verified)

    -- the bytes of an aggregate
    aggregate-serialized :
        (signatures : List BlsSignature) (s : BlsSignature) (ss : List BlsSignature)
        (wrapped : List x.PrependSignature) (total : BlsSignature)
        → signatures ≡ s ∷ ss
        → nonzero signatures ≡ signatures
        → map_res (λ (t : BlsSignature). x.signature_from_bytes t.sig) signatures ≡ ok wrapped
        → aggregate x signatures ≡ ok total
        → (t : x.PrependSignature) × (x.aggregate wrapped ≡ ok t) × (total.sig ≡ x.serialize t)
    unfolding aggregate aggregate_nonzero
    aggregate-serialized signatures s ss wrapped total same kept read h =
        let (sig, e1, k1) = >>=-eq-ok (aggregate_nonzero x (nonzero signatures)) _ h in
        let e1' : aggregate_nonzero x (s ∷ ss) ≡ ok sig =
          ap (aggregate_nonzero x) (sym same ∙ sym kept) ∙ e1 in
        let (wrapped', w1, w2) =
          >>=-eq-ok (map_res (λ (t : BlsSignature). x.signature_from_bytes t.sig) (s ∷ ss)) _ e1' in
        let (t, t1, t2) = >>=-eq-ok (x.aggregate wrapped') _ w2 in
        let (v, v1, v2) = >>=-eq-ok (sized 96 sig) _ k1 in
        (
          t,
          ap x.aggregate (
                ok-injective (
                  sym read
                  ∙ (ap (map_res (λ (t : BlsSignature). x.signature_from_bytes t.sig)) same ∙ w1)))
              ∙ t1,
          ap (λ (b : BlsSignature). b.sig) (sym (ok-injective v2))
              ∙ (sized-eq-ok 96 sig v v1 ∙ sym (ok-injective t2)),
        )

    -- Where blspy keeps its promises and each key of the keychain stands under its public key, the aggregate
    -- of the signatures that the keychain made for some pairs is accepted for these pairs.
    pub validate-aggregate :
        (pairs : List AggsigPair) (signatures : List BlsSignature) (total : BlsSignature)
        → map_res (sign x keychain) pairs ≡ ok signatures
        → aggregate x signatures ≡ ok total
        → validate x total pairs ≡ ok true
    unfolding validate
    validate-aggregate [] signatures total e h = refl
    validate-aggregate (p ∷ ps) signatures total e h =
        let (s, e1, k1) = >>=-eq-ok (sign x keychain p) _ e in
        let (ss, e2, k2) = >>=-eq-ok (map_res (sign x keychain) ps) _ k1 in
        let (signed, made) = map_res-IsSigned (p ∷ ps) signatures e in
        go signed made s ss (sym (ok-injective k2))
      where
        go :
            (signed : List (x.PrivateKey × Bytes))
            → IsSigned (p ∷ ps) signatures signed
            → (s : BlsSignature) (ss : List BlsSignature) → signatures ≡ s ∷ ss
            → validate x total (p ∷ ps) ≡ ok true
        go [] (hashes, keys, sigs, kept) s ss same = cc
        go ((k, hash) ∷ signed) (hashes, keys, sigs, kept) s ss same =
            let (t, added, bytes) = aggregate-serialized signatures s ss _ total same kept sigs h in
            validate-verified p ps total _ t keys
              (ap x.signature_from_bytes bytes ∙ works.reads_signature t)
              (ap
                  (λ hs. x.verify t hs (
                    map (λ (t' : x.PrivateKey × Bytes). x.public_key_of t'.0) ((k, hash) ∷ signed)))
                  hashes
                ∙ works.verifies k hash signed t added)
