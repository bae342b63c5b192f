-- ===== src/Tests/Answered.antt =====
-- Responses that a server writes, one of which cannot be made plain; and the size of a header.
use ledger_sim.Prelude.{
  zero, suc, ◌≡◌, refl, sym, ap, some, List, [], ◌∷◌, Bytes, map, length, arith,
}
use ledger_sim.Errors.{Res, ok, raise, Exception, type_error, value_error, map_res, ok-injective}
use ledger_sim.Hashable.Blocks.{header_codec}
use ledger_sim.Hashable.Eor.{signature_codec}
use ledger_sim.Atoms.Codec.{field, streamable}
use ledger_sim.Atoms.Ints.{uint, struct_stream, pack}
use ledger_sim.Atoms.SizedBytes.{sized_bytes}
use ledger_sim.Hashable.Blocks.Sizes.{length-header_stream}
use ledger_sim.Remote.Streamable.{
  Value, byte_string, object, Plain, plain_none, plain_text, plain_bytes, plain_number, plain_dict,
  plain_list, transform_to_streamable,
}
use ledger_sim.Remote.Frames.{reader_to_cbor_stream}
use ledger_sim.Remote.Frames.Stream.{LoadsBack}
use ledger_sim.Remote.Server.{MapError, passed_on}
use ledger_sim.Remote.Writer.{write_responses}
use ledger_sim.Remote.Writer.Answered.{TextsDump, sent, reader_to_cbor_stream-write_responses}
use ledger_sim.Tests.Block.{block}

-- a format that has bytes and texts, with one byte in front
abbrev dumps : Plain → Res Bytes
dumps (plain_bytes b) = ok (0 ∷ b)
dumps (plain_text t) = ok (1 ∷ t)
dumps plain_none = raise type_error
dumps (plain_number n) = raise type_error
dumps (plain_dict d) = raise type_error
dumps (plain_list l) = raise type_error

abbrev loads : Bytes → Res Plain
loads [] = raise value_error
loads (zero ∷ b) = ok (plain_bytes b)
loads (suc n ∷ b) = ok (plain_text b)

loads_back : LoadsBack dumps loads
loads_back (plain_bytes b) blob e = ap loads (sym (ok-injective e))
loads_back (plain_text t) blob e = ap loads (sym (ok-injective e))
loads_back plain_none blob e = cc
loads_back (plain_number n) blob e = cc
loads_back (plain_dict d) blob e = cc
loads_back (plain_list l) blob e = cc

abbrev problem : Exception → Bytes
problem e = 63 ∷ []

texts : TextsDump dumps loads problem
texts = record { dumped = λ e. 1 ∷ 63 ∷ []; dumps_text = λ e. refl; small = λ e. omega arith }

abbrev passes_on : Exception → MapError
passes_on e = passed_on

abbrev responses : List Value
responses = byte_string (7 ∷ 8 ∷ []) ∷ object (raise value_error) ∷ []

reader_to_cbor_stream-write_responses_example :
    (b : Bytes) × (ps : List Plain) × (write_responses dumps loads problem passes_on responses
      ≡ ok b)
    × (map_res transform_to_streamable (map (sent dumps loads problem) responses) ≡ ok ps)
    × (reader_to_cbor_stream dumps loads 3 b ≡ some ps)
reader_to_cbor_stream-write_responses_example =
    reader_to_cbor_stream-write_responses dumps loads problem passes_on loads_back texts responses

block_streamed : (blob : Bytes) × (header_codec.stream block ≡ ok blob)
unfolding header_codec field streamable signature_codec uint struct_stream pack sized_bytes
block_streamed = (_, refl)

length-header_stream_example : length block_streamed.0 ≡ 168
length-header_stream_example =
    length-header_stream block block_streamed.0 (refl, (refl, (omega arith, (refl, (refl, refl)))))
      block_streamed.1
