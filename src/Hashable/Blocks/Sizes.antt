-- ===== src/Hashable/Blocks/Sizes.antt =====
-- The sizes of the streams of hashable/Coin.py, ProofOfSpace.py and Header.py.
use ledger_sim.Prelude.{◌≡◌, Bytes, length}
use ledger_sim.Errors.{ok}
use ledger_sim.Atoms.Ints.{uint64}
use ledger_sim.Atoms.Sizes.{
  HasSize, field-HasSize, streamable-HasSize, sized_bytes-HasSize, uint-HasSize,
}
use ledger_sim.Hashable.Blocks.Codecs.{IsHeader}
use ledger_sim.Hashable.Eor.{EorSignature, signature_codec}
use ledger_sim.Hashable.Blocks.{Header, header, header_codec, to_header, of_header, HeaderFields}

abbrev FieldSizes : HeaderFields → Type 0
FieldSizes t =
    (length t.0 ≡ 32)
    × ((length t.1.0.val ≡ 32)
        × (Unit {0}
            × ((length t.1.1.1.0 ≡ 32) × ((length t.1.1.1.1.0 ≡ 32) × (length t.1.1.1.1.1 ≡ 32)))))

header-HasSize : HasSize header_codec (λ h. FieldSizes (of_header h)) 168
unfolding header_codec signature_codec
header-HasSize = streamable-HasSize to_header of_header (
    field-HasSize (sized_bytes-HasSize 32) (
      field-HasSize
        (streamable-HasSize (λ v. record { val = v }) (λ (s : EorSignature). s.val)
          (sized_bytes-HasSize 32))
        (field-HasSize (uint-HasSize uint64) (
          field-HasSize (sized_bytes-HasSize 32)
            (field-HasSize (sized_bytes-HasSize 32) (sized_bytes-HasSize 32))))))

-- A header whose hashes and signature have 32 bytes is streamed to exactly 168 bytes, if it is streamed.
pub length-header_stream :
    (h : Header) (blob : Bytes) → IsHeader h → header_codec.stream h ≡ ok blob → length blob ≡ 168
length-header_stream (header p s t q b e) blob (hp, (hs, (ht, (hq, (hb, he))))) streamed =
    header-HasSize.size (header p s t q b e) blob (hp, (hs, (tt, (hq, (hb, he))))) streamed
