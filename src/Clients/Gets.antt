-- ===== src/Clients/Gets.antt =====
-- What a client of the ledger gets for the answers of its methods.
use ledger_sim.Prelude.{
  ℕ, ◌<◌, ◌^◌, ◌≡◌, refl, none, some, List, [], ◌∷◌, Bytes, length, All, bytes_eq,
}
use ledger_sim.Prelude.Dict.{lookup, insert}
use ledger_sim.Prelude.Int.{pos}
use ledger_sim.Errors.{Res, ok, ◌>>=◌, >>=-eq-ok}
use ledger_sim.Externals.{Externals}
use ledger_sim.Atoms.Codec.{Codec, field, streamable, from_bytes, from_bytes-stream}
use ledger_sim.Atoms.Ints.{uint, struct_stream, unpack}
use ledger_sim.Atoms.SizedBytes.{bytes32, sized_bytes, sized_bytes-RoundTrips}
use ledger_sim.Hashable.Program.{ReadsBack}
use ledger_sim.Hashable.Unspent.{Unspent, unspent_codec, unspent_codec-RoundTrips}
use ledger_sim.Hashable.Blocks.{
  Body, Header, HeaderPointer, bare, hash_of, header_codec, body_codec,
}
use ledger_sim.Hashable.Blocks.Codecs.{
  bare_header, IsHeader, IsBody, header_codec_round_trip, body_codec_round_trip,
}
use ledger_sim.Remote.Streamable.{
  Plains, plain_bytes, plain_number, no_plains, plain_then, transform_to_streamable,
  transform_values, transform_entries, set_item, key_eq, check_hashable,
}
use ledger_sim.Remote.Decorators.{transform_args, transform_items}
use ledger_sim.Ledger.Api.{Answer, tip, block, names, entry}
use ledger_sim.Ledger.Api.Values.{
  tip_hash_key, tip_index_key, genesis_hash_key, header_key, body_key, unspents_key, byte_strings,
  body_value, answer_value,
}
use ledger_sim.Clients.{
  as_sent, header_pointer, a_header, a_body, coin_names, an_unspent, nothing, Response, of_fields,
  of_value, fields_of, response_of, opened, read_as, items_of, read_items, read_names, is_true,
  dict_of, xform_dict, read_unspent, get_tip_name, next_block_name, all_unspents_name,
  unspent_for_coin_name_name, remote_signatures, transform_response,
}

-- What a client gets from a method that gave an answer, where hashes have 32 bytes and the fields of what
-- is streamed are in their ranges.
pub data IsGot : Bytes → Answer → Response → Type 0 where
  gets_tip :
      (p : HeaderPointer) (i : ℕ) (g : Bytes)
      → length (hash_of p) ≡ 32
      → length g ≡ 32
      → IsGot get_tip_name (tip (p, i, g)) (
          of_fields (
            (tip_hash_key, header_pointer (bare (hash_of p)))
            ∷ (tip_index_key, as_sent (plain_number (pos i)))
            ∷ (genesis_hash_key, header_pointer (bare g))
            ∷ []))
  gets_block :
      (h : Header) (b : Body)
      → IsHeader h
      → IsBody b
      → IsGot next_block_name
          (block (h, some b))
          (of_fields ((header_key, a_header (bare_header h)) ∷ (body_key, a_body b) ∷ []))
  gets_unspents :
      (ns : List Bytes)
      → All (λ n. length n ≡ 32) ns
      → IsGot all_unspents_name (names ns) (of_fields ((unspents_key, coin_names ns) ∷ []))
  gets_unspent :
      (u : Unspent)
      → u.confirmed_block_index < 256 ^ 4
      → u.spent_block_index < 256 ^ 4
      → IsGot unspent_for_coin_name_name (entry (some u)) (of_value (an_unspent u))
  gets_nothing : IsGot unspent_for_coin_name_name (entry none) (of_value nothing)

module _ (x : Externals) (shown : Answer → Bytes) where
  -- an answer that is made plain, sent, and transformed by the client
  abbrev pub received : Bytes → Answer → Res Response
  received method a = do
    p ← transform_to_streamable (answer_value x shown a)
    transform_response x method (response_of p)

  hash_read : (h : Bytes) → length h ≡ 32 → from_bytes bytes32 h ≡ ok h
  unfolding sized_bytes
  hash_read h size = from_bytes-stream (sized_bytes-RoundTrips 32) h size

  -- what was streamed, and is read back
  blob_of :
      {T : Type 0} {v : T} (c : Codec T) (s : Res Bytes)
      → (s >>= from_bytes c) ≡ ok v
      → (b : Bytes) × (s ≡ ok b) × (from_bytes c b ≡ ok v)
  blob_of c s e = >>=-eq-ok s (from_bytes c) e

  abbrev plain_names : List Bytes → Plains
  plain_names [] = no_plains
  plain_names (n ∷ ns) = plain_then (plain_bytes n) (plain_names ns)

  names-plain : (ns : List Bytes) → transform_values (byte_strings ns) ≡ ok (plain_names ns)
  unfolding transform_values transform_to_streamable byte_strings
  names-plain [] = refl
  names-plain (n ∷ ns) = rw (names-plain ns) refl

  names-read : (ns : List Bytes) → All (λ n. length n ≡ 32) ns → read_items (plain_names ns) ≡ ok ns
  unfolding read_items opened
  names-read [] h = refl
  names-read (n ∷ ns) h = rw (hash_read n h.0, names-read ns h.1) refl

  tip-received :
      (p : HeaderPointer) (i : ℕ) (g : Bytes)
      → length (hash_of p) ≡ 32
      → length g ≡ 32
      → received get_tip_name (tip (p, i, g))
        ≡ ok (
            of_fields (
              (tip_hash_key, header_pointer (bare (hash_of p)))
              ∷ (tip_index_key, as_sent (plain_number (pos i)))
              ∷ (genesis_hash_key, header_pointer (bare g))
              ∷ []))
  unfolding transform_to_streamable answer_value transform_response remote_signatures xform_dict
      dict_of read_as opened response_of fields_of transform_args transform_items transform_entries
      set_item key_eq check_hashable lookup insert bytes_eq
  tip-received p i g size size' = rw (hash_read g size', hash_read (hash_of p) size) refl

  block-received :
      (h : Header) (b : Body) (header_blob body_blob : Bytes)
      → header_codec.stream h ≡ ok header_blob
      → from_bytes header_codec header_blob ≡ ok (bare_header h)
      → (body_codec x).stream b ≡ ok body_blob
      → from_bytes (body_codec x) body_blob ≡ ok b
      → received next_block_name (block (h, some b))
        ≡ ok (of_fields ((header_key, a_header (bare_header h)) ∷ (body_key, a_body b) ∷ []))
  unfolding transform_to_streamable answer_value transform_response remote_signatures xform_dict
      dict_of read_as opened response_of fields_of transform_args transform_items transform_entries
      set_item key_eq check_hashable lookup insert bytes_eq body_value
  block-received h b header_blob body_blob e e' f f' = rw (e, f, e', f') refl

  unspents-received :
      (ns : List Bytes)
      → All (λ n. length n ≡ 32) ns
      → received all_unspents_name (names ns) ≡ ok (of_fields ((unspents_key, coin_names ns) ∷ []))
  unfolding transform_to_streamable answer_value transform_response remote_signatures xform_dict
      dict_of read_as opened response_of fields_of transform_args transform_items transform_entries
      set_item key_eq check_hashable lookup insert bytes_eq read_names items_of
  unspents-received ns sizes = rw (names-plain ns, names-read ns sizes) refl

  -- A blob that is read as an entry is not empty.
  entry-received :
      (u : Unspent) (blob : Bytes)
      → unspent_codec.stream u ≡ ok blob
      → from_bytes unspent_codec blob ≡ ok u
      → received unspent_for_coin_name_name (entry (some u)) ≡ ok (of_value (an_unspent u))
  unfolding transform_to_streamable answer_value transform_response remote_signatures xform_dict
      dict_of read_as opened response_of fields_of transform_args transform_items transform_entries
      set_item key_eq check_hashable lookup insert bytes_eq read_unspent is_true unspent_codec field
      streamable uint struct_stream unpack from_bytes
  entry-received u [] e e' = cc
  entry-received u (n ∷ blob) e e' = rw (e, e') refl

  -- If a streamed program is read back, whatever follows it: where a method of the ledger gave an answer
  -- whose hashes have 32 bytes and whose fields are in their ranges, the client that called it gets, through its
  -- signatures, what the answer was, with header pointers that hold no header, and a header without the
  -- objects that its pointers held.
  pub received_lem :
      (method : Bytes) (a : Answer) (r : Response)
      → ReadsBack x
      → IsGot method a r
      → received method a ≡ ok r
  unfolding transform_to_streamable answer_value transform_response remote_signatures read_unspent
      is_true response_of lookup bytes_eq
  received_lem _ _ _ reads (gets_tip p i g size size') = tip-received p i g size size'
  received_lem _ _ _ reads (gets_block h b fit fit') =
      let (blob, e, e') = blob_of header_codec _ (header_codec_round_trip h fit) in
      let (blob', f, f') = blob_of (body_codec x) _ (body_codec_round_trip x b reads fit') in
      block-received h b blob blob' e e' f f'
  received_lem _ _ _ reads (gets_unspents ns sizes) = unspents-received ns sizes
  received_lem _ _ _ reads (gets_unspent u fit fit') =
      let (blob, e, e') =
        blob_of unspent_codec _ (from_bytes-stream unspent_codec-RoundTrips u (fit, fit')) in
      entry-received u blob e e'
  received_lem _ _ _ reads gets_nothing = refl
