-- ===== src/Remote/Frames.antt =====
-- `xform_to_cbor_message` and `reader_to_cbor_stream` of utils/cbor_messages.py: a message has its size in
-- four bytes in front. The reader is given by all the bytes that come until the end of the stream.
pub mod Stream
use ledger_sim.Prelude.{
  ℕ, zero, suc, Option, none, some, List, [], ◌∷◌, ◌++◌, Bytes, length, take, drop, leb,
  if◌then◌else◌,
}
use ledger_sim.Prelude.Int.{ℤ, pos}
use ledger_sim.Errors.{Res, ok, raise, ◌>>=◌}
use ledger_sim.Atoms.BigEndian.{from_big_endian}
use ledger_sim.Atoms.Ints.{pack, uint32}
use ledger_sim.Remote.Streamable.{Value, Plain, transform_to_streamable}

-- `reader.readexactly(n)`: too few bytes are an IncompleteReadError.
unfoldable pub read_exactly : ℕ → Bytes → Option (Bytes × Bytes)
read_exactly n b = if leb n (length b) then some (take n b, drop n b) else none

-- the size of a message, and the message
unfoldable pub read_frame : Bytes → Option (Bytes × Bytes)
unfolding read_exactly
read_frame b = elim (read_exactly 4 b) [
  | none ↦ none
  | some (message_size, rest) ↦ read_exactly (from_big_endian message_size) rest
]

module _ (dumps : Plain → Res Bytes) (loads : Bytes → Res Plain) where
  unfoldable pub xform_to_cbor_message : Value → Res Bytes
  xform_to_cbor_message msg = do
    plain ← transform_to_streamable msg
    msg_blob ← dumps plain
    length_blob ← pack uint32 (pos (length msg_blob))
    ok (length_blob ++ msg_blob)

  -- what is written for several messages
  unfoldable pub write_all : List Value → Res Bytes
  write_all [] = ok []
  write_all (m ∷ ms) = do blob ← xform_to_cbor_message m; rest ← write_all ms; ok (blob ++ rest)

  -- The messages until the stream ends, or something is wrong with it; fuel bounds their number, and
  -- `none` means that it ran out.
  unfoldable pub reader_to_cbor_stream : ℕ → Bytes → Option (List Plain)
  unfolding read_frame
  reader_to_cbor_stream zero b = none
  reader_to_cbor_stream (suc fuel) b = elim (read_frame b) [
    | none ↦ some []
    | some (blob, more) ↦ elim (loads blob) [
      | raise e ↦ some []
      | ok message ↦ elim (reader_to_cbor_stream fuel more) [
        | none ↦ none
        | some messages ↦ some (message ∷ messages)
      ]
    ]
  ]
