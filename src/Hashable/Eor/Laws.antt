-- ===== src/Hashable/Eor/Laws.antt =====
-- The exclusive-or signatures of hashable/Signature.py: signing, validating and adding.
use ledger_sim.Prelude.{
  ℕ, zero, suc, ◌≡◌, refl, sym, ap, ap₂, ◌∙◌, true, List, [], ◌∷◌, ◌++◌, Bytes, bytes_eq_iff,
  bytes_eq_refl, replicate, length, arith, All,
}
use ledger_sim.Prelude.Xor.{xor_comm, xor_assoc, zero-xor}
use ledger_sim.Hashable.Message.{AggsigPair}
use ledger_sim.Hashable.Eor.{
  eor_bytes32, EorSignature, eor_pairs, validate, add, EorPrivateKey, sign, public_key,
  zero as zero_signature,
}

pub eor_comm : (a b : Bytes) → length a ≡ length b → eor_bytes32 a b ≡ eor_bytes32 b a
unfolding eor_bytes32
eor_comm [] [] h = refl
eor_comm [] (b ∷ bs) h = absurd (omega arith)
eor_comm (a ∷ as') [] h = absurd (omega arith)
eor_comm (a ∷ as') (b ∷ bs) h = ap₂ (λ x y. x ∷ y) (xor_comm a b) (eor_comm as' bs (omega arith))

pub eor_assoc : (a b c : Bytes) → eor_bytes32 (eor_bytes32 a b) c ≡ eor_bytes32 a (eor_bytes32 b c)
unfolding eor_bytes32
eor_assoc [] b c = refl
eor_assoc (a ∷ as') [] c = refl
eor_assoc (a ∷ as') (b ∷ bs) [] = refl
eor_assoc (a ∷ as') (b ∷ bs) (c ∷ cs) = ap₂ (λ x y. x ∷ y) (xor_assoc a b c) (eor_assoc as' bs cs)

pub eor-zero : (n : ℕ) (a : Bytes) → length a ≡ n → eor_bytes32 (replicate n 0) a ≡ a
unfolding eor_bytes32
eor-zero zero [] h = refl
eor-zero zero (a ∷ as') h = absurd (omega arith)
eor-zero (suc n) [] h = absurd (omega arith)
eor-zero (suc n) (a ∷ as') h = ap₂ (λ x y. x ∷ y) (zero-xor a) (eor-zero n as' (omega arith))

-- `eor_bytes32` of two byte strings of one length has that length.
pub length-eor : (n : ℕ) (a b : Bytes) → length a ≡ n → length b ≡ n → length (eor_bytes32 a b) ≡ n
unfolding eor_bytes32
length-eor n [] b h k = h
length-eor n (a ∷ as') [] h k = absurd (omega arith)
length-eor zero (a ∷ as') (b ∷ bs) h k = absurd (omega arith)
length-eor (suc n) (a ∷ as') (b ∷ bs) h k = ap suc (length-eor n as' bs (omega arith) (omega arith))

-- A key pair whose parts are 32 bytes long.
abbrev pub IsPair : AggsigPair → Type 0
IsPair p = (length p.public_key ≡ 32) × (length p.message_hash ≡ 32)

-- A private key's signature of a message hash is accepted for its public key and that hash.
pub validate-sign :
    (k : EorPrivateKey) (h : Bytes)
    → length k.val ≡ 32
    → length h ≡ 32
    → validate (sign k h) (record { public_key = public_key k; message_hash = h } ∷ []) ≡ true
unfolding validate sign public_key
validate-sign k h sk sh =
    rw (eor-zero 32 h sh, eor_comm h k.val (omega arith)) (bytes_eq_refl (eor_bytes32 k.val h))

-- No other signature is accepted for that key and hash.
pub validate_unique :
    (k : EorPrivateKey) (h : Bytes) (s : EorSignature)
    → length k.val ≡ 32
    → length h ≡ 32
    → validate s (record { public_key = public_key k; message_hash = h } ∷ []) ≡ true
    → s ≡ sign k h
unfolding validate sign public_key
validate_unique k h s sk sh e = λ i. record {
  val =
      (sym ((bytes_eq_iff _ s.val).0 e)
          ∙ (ap (λ t. eor_bytes32 t k.val) (eor-zero 32 h sh) ∙ eor_comm h k.val (omega arith)))
        i;
}

pub eor_pairs-acc :
    (acc b : Bytes) (ps : List AggsigPair)
    → length acc ≡ 32
    → length b ≡ 32
    → All IsPair ps
    → eor_pairs (eor_bytes32 acc b) ps ≡ eor_bytes32 acc (eor_pairs b ps)
unfolding eor_pairs
eor_pairs-acc acc b [] ha hb hp = refl
eor_pairs-acc acc b (p ∷ ps) ha hb hp =
    rw (eor_assoc acc b p.message_hash, eor_assoc acc (eor_bytes32 b p.message_hash) p.public_key)
      (eor_pairs-acc acc (eor_bytes32 (eor_bytes32 b p.message_hash) p.public_key) ps ha
        (length-eor 32 _ _ (length-eor 32 b p.message_hash hb hp.0.1) hp.0.0) hp.1)

pub eor_pairs-append :
    (acc : Bytes) (ps qs : List AggsigPair)
    → eor_pairs acc (ps ++ qs) ≡ eor_pairs (eor_pairs acc ps) qs
unfolding eor_pairs
eor_pairs-append acc [] qs = refl
eor_pairs-append acc (p ∷ ps) qs =
    eor_pairs-append (eor_bytes32 (eor_bytes32 acc p.message_hash) p.public_key) ps qs

pub length-eor_pairs :
    (acc : Bytes) (ps : List AggsigPair)
    → length acc ≡ 32
    → All IsPair ps
    → length (eor_pairs acc ps) ≡ 32
unfolding eor_pairs
length-eor_pairs acc [] h hp = h
length-eor_pairs acc (p ∷ ps) h hp =
    length-eor_pairs (eor_bytes32 (eor_bytes32 acc p.message_hash) p.public_key) ps
      (length-eor 32 _ _ (length-eor 32 acc p.message_hash h hp.0.1) hp.0.0) hp.1

-- The sum of two accepted signatures is accepted for the pairs of both together, where each key and
-- each message hash has 32 bytes.
pub validate-add :
    (s t : EorSignature) (ps qs : List AggsigPair)
    → All IsPair ps
    → All IsPair qs
    → validate s ps ≡ true
    → validate t qs ≡ true
    → validate (add s t) (ps ++ qs) ≡ true
unfolding validate add
validate-add s t ps qs hp hq es et =
    let ep : eor_pairs zero_signature.val ps ≡ s.val = (bytes_eq_iff _ s.val).0 es in
    let eq' : eor_pairs zero_signature.val qs ≡ t.val = (bytes_eq_iff _ t.val).0 et in
    let size : length s.val ≡ 32 =
      ap length (sym ep) ∙ length-eor_pairs zero_signature.val ps refl hp in
    let padded : s.val ≡ eor_bytes32 s.val zero_signature.val =
      sym (eor_comm s.val zero_signature.val size ∙ eor-zero 32 s.val size) in
    (bytes_eq_iff _ (eor_bytes32 s.val t.val)).1 (
      eor_pairs-append zero_signature.val ps qs
      ∙ (ap (λ v. eor_pairs v qs) (ep ∙ padded)
          ∙ (eor_pairs-acc s.val zero_signature.val qs size refl hq ∙ ap (eor_bytes32 s.val) eq')))
