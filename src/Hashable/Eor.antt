-- ===== src/Hashable/Eor.antt =====
-- hashable/Signature.py: signatures by exclusive or, for headers.
pub mod Laws
use ledger_sim.Prelude.{ℕ, ◌≡◌, refl, Bool, List, [], ◌∷◌, Bytes, bytes_eq, replicate, length}
use ledger_sim.Prelude.Xor.{bit_xor}
use ledger_sim.Hashable.Message.{AggsigPair}
use ledger_sim.Atoms.Codec.{Codec, streamable}
use ledger_sim.Atoms.SizedBytes.{bytes32}

-- `eor_bytes32`, byte by byte. The two have 32 bytes each, and so has what comes out.
unfoldable pub eor_bytes32 : Bytes → Bytes → Bytes
eor_bytes32 [] bs = []
eor_bytes32 (a ∷ as') [] = []
eor_bytes32 (a ∷ as') (b ∷ bs) = bit_xor a b ∷ eor_bytes32 as' bs

pub record EorSignature : Type 0 where
  pub val : Bytes

-- `EORSignature.zero`
abbrev pub zero : EorSignature
zero = record { val = replicate 32 0 }

-- the loop of `validate`
unfoldable pub eor_pairs : Bytes → List AggsigPair → Bytes
unfolding eor_bytes32
eor_pairs acc [] = acc
eor_pairs acc (p ∷ ps) = eor_pairs (eor_bytes32 (eor_bytes32 acc p.message_hash) p.public_key) ps

unfoldable pub validate : EorSignature → List AggsigPair → Bool
unfolding eor_pairs
validate s hash_key_pairs = bytes_eq (eor_pairs zero.val hash_key_pairs) s.val

-- `__add__`
unfoldable pub add : EorSignature → EorSignature → EorSignature
add s t = record { val = eor_bytes32 s.val t.val }

pub record EorPrivateKey : Type 0 where
  pub val : Bytes

-- `EORPrivateKey.sign` and `public_key`
unfoldable pub sign : EorPrivateKey → Bytes → EorSignature
sign k message_hash = record { val = eor_bytes32 k.val message_hash }

unfoldable pub public_key : EorPrivateKey → Bytes
public_key k = k.val

unfoldable pub signature_codec : Codec EorSignature
unfolding streamable
signature_codec =
    streamable (λ (v : Bytes). record { val = v }) (λ (s : EorSignature). s.val) bytes32
