-- ===== src/Tests/Codecs.antt =====
-- The theorems about codecs, signatures and storage at concrete inputs.
use ledger_sim.Prelude.{◌≡◌, refl, ◌↔◌, none, some, [], Bytes, replicate, bytes_eq, arith}
use ledger_sim.Prelude.Dict.{lookup}
use ledger_sim.Prelude.Int.{negsuc}
use ledger_sim.Errors.{ok, raise, ◌>>=◌}
use ledger_sim.Atoms.Codec.{RoundTrips, from_bytes}
use ledger_sim.Atoms.SizedBytes.{sized, sized_bytes}
use ledger_sim.Atoms.Ints.{int32, InRange, uint, struct_stream, struct_stream-RoundTrips}
use ledger_sim.Atoms.StreamableList.{streamable_list, Fits, streamable_list-RoundTrips}
use ledger_sim.Atoms.HashPointer.{obj, checked_preimage}
use ledger_sim.Hashable.Coin.{
  Coin, new_coin, coin_bytes, coin_from_bytes, coin_from_bytes-coin_bytes, name, std_hash,
}
use ledger_sim.Hashable.Eor.{signature_codec, EorPrivateKey, zero, sign, public_key}
use ledger_sim.Hashable.Blocks.{
  body_codec, Header, held, header_codec, header_hash, ProofOfSpace, header_obj, proof_of_space_obj,
  header, bare,
}
use ledger_sim.Hashable.Blocks.Codecs.{body_codec_round_trip, header_codec_round_trip, bare_header}
use ledger_sim.Storage.RamDb.{empty, hash_preimage, add_preimage, rollback_to_block}
use ledger_sim.Storage.RamDb.Laws.{IsHonest, IsUpTo, add_preimage-IsHonest, rollback_to_block_iff}
use ledger_sim.Validation.HeaderSignature.{check_header_signature}
use ledger_sim.Validation.HeaderSignature.Laws.{check_header_signature_iff}
use ledger_sim.Tests.Toy.{toy, toy_ints, toy_reads_back}
use ledger_sim.Tests.Block.{fees, body, block, genesis, heap, payee}

struct_stream-RoundTrips_example : RoundTrips (struct_stream int32) (InRange int32)
struct_stream-RoundTrips_example = struct_stream-RoundTrips int32 (omega arith)

streamable_list-RoundTrips_example :
    RoundTrips (streamable_list (struct_stream int32)) (Fits (InRange int32))
streamable_list-RoundTrips_example = streamable_list-RoundTrips struct_stream-RoundTrips_example'
  where
    struct_stream-RoundTrips_example' : RoundTrips (struct_stream int32) (InRange int32)
    struct_stream-RoundTrips_example' = struct_stream-RoundTrips int32 (omega arith)

-- an amount that no block can carry, but whose coin is stored
abbrev debt : Coin
debt = record { parent_coin_info = payee; puzzle_hash = payee; amount = negsuc 4 }

coin_from_bytes-coin_bytes_example : coin_from_bytes toy (coin_bytes toy debt) ≡ ok debt
coin_from_bytes-coin_bytes_example =
    coin_from_bytes-coin_bytes toy toy_ints debt (record { parent_size = refl; hash_size = refl })

body_codec_round_trip_example :
    ((body_codec toy).stream body >>= from_bytes (body_codec toy)) ≡ ok body
body_codec_round_trip_example =
    body_codec_round_trip toy body toy_reads_back
      (refl, ((refl, (refl, (50, refl))), ((refl, (refl, (1, refl))), (tt, (omega arith, refl)))))

header_codec_round_trip_example :
    (header_codec.stream block >>= from_bytes header_codec) ≡ ok (bare_header block)
header_codec_round_trip_example =
    header_codec_round_trip block (refl, (refl, (omega arith, (refl, (refl, refl)))))

fees_found :
    checked_preimage
      (std_hash toy)
      (coin_from_bytes toy)
      (name toy fees)
      (some (coin_bytes toy fees))
    ≡ ok (some fees)
unfolding checked_preimage coin_from_bytes new_coin sized name std_hash coin_bytes bytes_eq
fees_found = refl

abbrev plot_key : EorPrivateKey
plot_key = record { val = replicate 32 6 }

abbrev pool_key : EorPrivateKey
pool_key = record { val = replicate 32 9 }

abbrev space : ProofOfSpace
unfolding public_key
space = record { pool_public_key = replicate 48 0; plot_public_key = public_key plot_key }

abbrev farmed : Header
farmed =
    header (bare genesis) zero 1000 (record { hash = genesis; held = some space })
      (record { hash = genesis; held = some body }) (replicate 32 0)

abbrev farmed_hash : Bytes
unfolding header_hash header_codec
farmed_hash = elim (header_hash toy farmed) [ ok b ↦ b | raise e ↦ [] ]

farmed_hashed : header_hash toy farmed ≡ ok farmed_hash
unfolding farmed_hash sized_bytes signature_codec uint struct_stream
farmed_hashed = refl

check_header_signature_iff_example :
    (check_header_signature toy (λ h. none) (held farmed_hash farmed) (sign plot_key genesis)
      ≡ ok tt)
    ↔ (sign plot_key genesis ≡ sign plot_key farmed_hash)
unfolding header_obj proof_of_space_obj obj space farmed_hash sized_bytes signature_codec uint
    struct_stream std_hash
check_header_signature_iff_example =
    check_header_signature_iff toy (λ h. none) (held farmed_hash farmed) farmed space plot_key
      farmed_hash (sign plot_key genesis) refl refl farmed_hashed refl refl refl

add_preimage-IsHonest_example : IsHonest toy (add_preimage toy (coin_bytes toy fees) empty)
unfolding hash_preimage lookup
add_preimage-IsHonest_example =
    add_preimage-IsHonest toy (coin_bytes toy fees) empty (record { at = λ h blob e. cc })

rollback_to_block_iff_example :
    ((rollback_to_block 1 (heap 0)).1 ≡ heap 0)
    × (((rollback_to_block 1 (heap 0)).0 ≡ ok tt) ↔ IsUpTo 1 (heap 0).unspent_db)
rollback_to_block_iff_example = rollback_to_block_iff 1 (heap 0)
