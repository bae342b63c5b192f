-- ===== src/Hashable/Blocks.antt =====
-- hashable/ProofOfSpace.py, Body.py and Header.py: the linked structures of the chain.
pub mod Codecs
pub mod Sizes
use ledger_sim.Prelude.{ℕ, Bytes, Option, none, some}
use ledger_sim.Errors.{Res, ok, ◌>>=◌}
use ledger_sim.Externals.{Externals, SExp}
use ledger_sim.Atoms.Codec.{Codec, field, streamable, from_bytes}
use ledger_sim.Atoms.SizedBytes.{bytes32, bytes48}
use ledger_sim.Atoms.Ints.{uint, uint64}
use ledger_sim.Atoms.HashPointer.{HashPointer, Storage, obj, pointer_to, checked_preimage}
use ledger_sim.Hashable.Program.{program_codec}
use ledger_sim.Hashable.Coin.{Coin, coin_codec, std_hash}
use ledger_sim.Hashable.Eor.{EorSignature, signature_codec}
use ledger_sim.Hashable.BlsSignature.{BlsSignature, bls_codec}

pub record ProofOfSpace : Type 0 where
  pub pool_public_key : Bytes
  pub plot_public_key : Bytes

unfoldable pub proof_of_space_codec : Codec ProofOfSpace
unfolding field streamable
proof_of_space_codec =
    streamable (λ (t : Bytes × Bytes). record { pool_public_key = t.0; plot_public_key = t.1 })
      (λ (p : ProofOfSpace). (p.pool_public_key, p.plot_public_key)) (field bytes48 bytes32)

pub record Body : Type 0 where
  pub coinbase_signature : BlsSignature
  pub coinbase_coin : Coin
  pub fees_coin : Coin
  pub solution_program : SExp
  pub program_cost : ℕ
  pub aggregated_signature : BlsSignature

abbrev pub BodyFields : Type 0
BodyFields = BlsSignature × (Coin × (Coin × (SExp × (ℕ × BlsSignature))))

abbrev pub to_body : BodyFields → Body
to_body t = record {
  coinbase_signature = t.0;
  coinbase_coin = t.1.0;
  fees_coin = t.1.1.0;
  solution_program = t.1.1.1.0;
  program_cost = t.1.1.1.1.0;
  aggregated_signature = t.1.1.1.1.1;
}

abbrev pub of_body : Body → BodyFields
of_body b = (
  b.coinbase_signature,
  (b.coinbase_coin, (b.fees_coin, (b.solution_program, (b.program_cost, b.aggregated_signature)))),
)

unfoldable pub body_codec : Externals → Codec Body
unfolding field streamable
body_codec x = streamable to_body of_body (
    field bls_codec (
      field coin_codec
        (field coin_codec (field (program_codec x) (field (uint uint64) bls_codec)))))

-- A header, and the pointer to one: the hash alone, or the hash with the header that it was made
-- from (`_obj`).
mutual
  pub data Header : Type 0 where
    header :
        (previous_hash : HeaderPointer) (previous_signature : EorSignature) (timestamp : ℕ)
        (proof_of_space_hash : HashPointer ProofOfSpace) (body_hash : HashPointer Body)
        (extension_data_hash : Bytes)
        → Header

  pub data HeaderPointer : Type 0 where
    bare : Bytes → HeaderPointer
    held : Bytes → Header → HeaderPointer

-- a header pointer, as bytes
abbrev pub hash_of : HeaderPointer → Bytes
hash_of (bare h) = h
hash_of (held h v) = h

abbrev pub previous_hash : Header → HeaderPointer
previous_hash (header p s t q b e) = p

abbrev pub previous_signature : Header → EorSignature
previous_signature (header p s t q b e) = s

abbrev pub timestamp : Header → ℕ
timestamp (header p s t q b e) = t

abbrev pub proof_of_space_hash : Header → HashPointer ProofOfSpace
proof_of_space_hash (header p s t q b e) = q

abbrev pub body_hash : Header → HashPointer Body
body_hash (header p s t q b e) = b

abbrev pub extension_data_hash : Header → Bytes
extension_data_hash (header p s t q b e) = e

abbrev pub HeaderFields : Type 0
HeaderFields = Bytes × (EorSignature × (ℕ × (Bytes × (Bytes × Bytes))))

-- The pointers of a parsed header hold no object.
abbrev pub to_header : HeaderFields → Header
to_header t =
    header (bare t.0) t.1.0 t.1.1.0 (record { hash = t.1.1.1.0; held = none })
      (record { hash = t.1.1.1.1.0; held = none }) t.1.1.1.1.1

abbrev pub of_header : Header → HeaderFields
of_header (header p s t q b e) = (hash_of p, (s, (t, (q.hash, (b.hash, e)))))

unfoldable pub header_codec : Codec Header
unfolding field streamable
header_codec = streamable to_header of_header (
    field bytes32
      (field signature_codec (field (uint uint64) (field bytes32 (field bytes32 bytes32)))))

module _ (x : Externals) where
  -- `HeaderHash(header)`
  unfoldable pub header_hash : Header → Res Bytes
  header_hash h = do blob ← header_codec.stream h; ok (std_hash x blob)

  -- `header_pointer.obj(storage)`
  unfoldable pub header_obj : Storage → HeaderPointer → Res (Option Header)
  header_obj storage (held h v) = ok (some v)
  header_obj storage (bare h) =
      checked_preimage (std_hash x) (from_bytes header_codec) h (storage h)

  -- `header.body_hash.obj(storage)` and `header.proof_of_space_hash.obj(storage)`
  unfoldable pub body_obj : Storage → HashPointer Body → Res (Option Body)
  body_obj = obj (std_hash x) (from_bytes (body_codec x))

  unfoldable pub proof_of_space_obj : Storage → HashPointer ProofOfSpace → Res (Option ProofOfSpace)
  proof_of_space_obj = obj (std_hash x) (from_bytes proof_of_space_codec)
