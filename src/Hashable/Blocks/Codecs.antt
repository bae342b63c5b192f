-- ===== src/Hashable/Blocks/Codecs.antt =====
-- The round trips of headers and bodies through their bytes, which is how a client and the storage
-- pass them on.
use ledger_sim.Prelude.{◌<◌, ◌^◌, ◌≡◌, refl, [], length, arith}
use mathlib.Core.List.{append-nil}
use ledger_sim.Errors.{ok, ◌>>=◌}
use ledger_sim.Externals.{Externals}
use ledger_sim.Atoms.Codec.{
  Codec, RoundTrips, field, streamable, field-RoundTrips, streamable-RoundTrips, from_bytes,
  from_bytes-stream,
}
use ledger_sim.Atoms.SizedBytes.{bytes32, sized_bytes-RoundTrips}
use ledger_sim.Atoms.Ints.{uint, uint64, uint-RoundTrips}
use ledger_sim.Hashable.Program.{program_codec, ReadsBack}
use ledger_sim.Hashable.Coin.{IsStreamable, coin_codec-RoundTrips}
use ledger_sim.Hashable.Eor.{signature_codec}
use ledger_sim.Hashable.BlsSignature.{bls_codec}
use ledger_sim.Hashable.Blocks.{
  Body, to_body, of_body, body_codec, Header, header, HeaderFields, to_header, of_header,
  header_codec, hash_of,
}

signature_codec-RoundTrips : RoundTrips signature_codec (λ s. length s.val ≡ 32)
unfolding signature_codec
signature_codec-RoundTrips = streamable-RoundTrips _ _ (λ s. refl) (sized_bytes-RoundTrips 32)

bls_codec-RoundTrips : RoundTrips bls_codec (λ s. length s.sig ≡ 96)
unfolding bls_codec
bls_codec-RoundTrips = streamable-RoundTrips _ _ (λ s. refl) (sized_bytes-RoundTrips 96)

program_codec-RoundTrips :
    (x : Externals) → ReadsBack x → RoundTrips (program_codec x) (λ p. Unit {0})
unfolding program_codec
program_codec-RoundTrips x r = record {
  blob = λ p _. x.sexp_to_stream p;
  streams = λ p _. refl;
  parses = λ p _ rest. r.at p rest;
}

-- The fields of a body are in their ranges.
abbrev pub IsBody : Body → Type 0
IsBody b =
    (length b.coinbase_signature.sig ≡ 96)
    × (IsStreamable b.coinbase_coin
        × (IsStreamable b.fees_coin
            × (Unit {0} × ((b.program_cost < 256 ^ 8) × (length b.aggregated_signature.sig ≡ 96)))))

body_codec-RoundTrips : (x : Externals) → ReadsBack x → RoundTrips (body_codec x) IsBody
unfolding body_codec
body_codec-RoundTrips x r =
    streamable-RoundTrips to_body of_body (λ b. refl)
      (field-RoundTrips bls_codec-RoundTrips (
        field-RoundTrips coin_codec-RoundTrips (
          field-RoundTrips coin_codec-RoundTrips (
            field-RoundTrips (program_codec-RoundTrips x r)
              (field-RoundTrips (uint-RoundTrips 8 (omega arith)) bls_codec-RoundTrips)))))

-- If a streamed program is read back, whatever follows it, a body whose fields are in their ranges is
-- read back from its bytes.
pub body_codec_round_trip :
    (x : Externals) (b : Body)
    → ReadsBack x
    → IsBody b
    → ((body_codec x).stream b >>= from_bytes (body_codec x)) ≡ ok b
body_codec_round_trip x b r h = from_bytes-stream (body_codec-RoundTrips x r) b h

-- The header without the objects that its pointers hold.
unfoldable pub bare_header : Header → Header
bare_header h = to_header (of_header h)

abbrev pub IsHeader : Header → Type 0
IsHeader (header p s t q b e) =
    (length (hash_of p) ≡ 32)
    × ((length s.val ≡ 32)
        × ((t < 256 ^ 8) × ((length q.hash ≡ 32) × ((length b.hash ≡ 32) × (length e ≡ 32)))))

abbrev header_fields : Codec HeaderFields
header_fields =
    field bytes32
      (field signature_codec (field (uint uint64) (field bytes32 (field bytes32 bytes32))))

abbrev FieldsFit : HeaderFields → Type 0
FieldsFit t =
    (length t.0 ≡ 32)
    × ((length t.1.0.val ≡ 32)
        × ((t.1.1.0 < 256 ^ 8)
            × ((length t.1.1.1.0 ≡ 32) × ((length t.1.1.1.1.0 ≡ 32) × (length t.1.1.1.1.1 ≡ 32)))))

header_fields-RoundTrips : RoundTrips header_fields FieldsFit
header_fields-RoundTrips = field-RoundTrips (sized_bytes-RoundTrips 32) (
    field-RoundTrips signature_codec-RoundTrips (
      field-RoundTrips (uint-RoundTrips 8 (omega arith)) (
        field-RoundTrips (sized_bytes-RoundTrips 32)
          (field-RoundTrips (sized_bytes-RoundTrips 32) (sized_bytes-RoundTrips 32)))))

-- A header whose fields are in their ranges is read back from its bytes, without the objects that its
-- pointers held.
pub header_codec_round_trip :
    (h : Header)
    → IsHeader h
    → (header_codec.stream h >>= from_bytes header_codec) ≡ ok (bare_header h)
unfolding header_codec bare_header from_bytes streamable
header_codec_round_trip (header p s t q b e) fit =
    let h : Header = header p s t q b e in
    rw (header_fields-RoundTrips.streams (of_header h) fit) (
      rw (← append-nil (header_fields-RoundTrips.blob (of_header h) fit))
        (rw (header_fields-RoundTrips.parses (of_header h) fit [])))
