-- ===== src/Clients.antt =====
-- clients/ledger_sim.py: what a client makes of the ledger's responses, by `REMOTE_SIGNATURES` and the end
-- of `invoke_remote` of remote/client.py. A response that is a dictionary is looked at by those of its
-- keys that are texts.
pub mod Gets
use ledger_sim.Prelude.{zero, Bool, true, false, Option, none, some, List, [], ◌∷◌, Bytes}
use ledger_sim.Prelude.Dict.{Dict, lookup}
use ledger_sim.Prelude.Int.{pos}
use ledger_sim.Errors.{Res, ok, raise, type_error, value_error, ◌>>=◌}
use ledger_sim.Externals.{Externals}
use ledger_sim.Atoms.Codec.{Codec, from_bytes}
use ledger_sim.Atoms.SizedBytes.{bytes32}
use ledger_sim.Hashable.Unspent.{Unspent, unspent_codec}
use ledger_sim.Hashable.Blocks.{Body, Header, HeaderPointer, bare, header_codec, body_codec}
use ledger_sim.Remote.Streamable.{
  Plain, Plains, PlainEntries, plain_none, plain_text, plain_bytes, plain_number, plain_dict,
  plain_list, no_plains, plain_then, no_plain_entries, plain_entry_then,
}
use ledger_sim.Remote.Decorators.{transform_args}
use ledger_sim.Ledger.Api.{keys_of}
use ledger_sim.Ledger.Api.Values.{
  tip_hash_key, genesis_hash_key, header_key, body_key, unspents_key,
}

-- a value as it was sent, or what a signature makes of it
pub data Typed : Type 0 where
  as_sent : Plain → Typed
  header_pointer : HeaderPointer → Typed
  a_header : Header → Typed
  a_body : Body → Typed
  coin_names : List Bytes → Typed
  an_unspent : Unspent → Typed
  nothing : Typed

pub data Response : Type 0 where
  of_fields : Dict Typed → Response
  of_value : Typed → Response

abbrev pub Signature : Type 0
Signature = Response → Res Response

-- the fields of a dictionary
unfoldable pub fields_of : PlainEntries → Dict Typed
fields_of no_plain_entries = []
fields_of (plain_entry_then (plain_text k) v d) = (k, as_sent v) ∷ fields_of d
fields_of (plain_entry_then k v d) = fields_of d

unfoldable pub response_of : Plain → Response
unfolding fields_of
response_of (plain_dict d) = of_fields (fields_of d)
response_of p = of_value (as_sent p)

-- `io.BytesIO(v)`
unfoldable pub opened : Plain → Res Bytes
opened plain_none = ok []
opened (plain_bytes b) = ok b
opened p = raise type_error

-- `T.from_bytes`
unfoldable pub read_as : {T : Type 0} → Codec T → (T → Typed) → Typed → Res Typed
unfolding opened
read_as c typed (as_sent p) = do b ← opened p; t ← from_bytes c b; ok (typed t)
read_as c typed v = raise type_error

-- what a value is iterated over as; the items of bytes and of a text are no bytes
unfoldable pub items_of : Plain → Res Plains
items_of (plain_list ps) = ok ps
items_of (plain_dict d) = ok (keys_of d)
items_of (plain_bytes []) = ok no_plains
items_of (plain_text []) = ok no_plains
items_of p = raise type_error

unfoldable pub read_items : Plains → Res (List Bytes)
unfolding opened
read_items no_plains = ok []
read_items (plain_then p ps) = do
  b ← opened p
  n ← from_bytes bytes32 b
  ns ← read_items ps
  ok (n ∷ ns)

-- `[CoinName.from_bytes(_) for _ in u]`
unfoldable pub read_names : Typed → Res Typed
unfolding items_of read_items
read_names (as_sent p) = do ps ← items_of p; ns ← read_items ps; ok (coin_names ns)
read_names v = raise type_error

-- whether a value counts as true
unfoldable pub is_true : Plain → Bool
is_true plain_none = false
is_true (plain_text []) = false
is_true (plain_bytes []) = false
is_true (plain_number (pos zero)) = false
is_true (plain_dict no_plain_entries) = false
is_true (plain_list no_plains) = false
is_true p = true

-- `dict(message)`, where a list of pairs, which the ledger does not send, is left out
unfoldable pub dict_of : Response → Res (Dict Typed)
dict_of (of_fields message) = ok message
dict_of (of_value (as_sent (plain_list no_plains))) = ok []
dict_of (of_value (as_sent (plain_bytes []))) = ok []
dict_of (of_value (as_sent (plain_text []))) = ok []
dict_of (of_value (as_sent (plain_text (c ∷ t)))) = raise value_error
dict_of (of_value v) = raise type_error

unfoldable pub xform_dict : Dict (Typed → Res Typed) → Signature
unfolding dict_of
xform_dict kwargs message = do
  old ← dict_of message
  new_message ← transform_args kwargs old
  ok (of_fields new_message)

-- `Unspent.from_bytes(x) if x else None`
unfoldable pub read_unspent : Signature
unfolding read_as is_true
read_unspent (of_value (as_sent p)) = elim (is_true p) [
  | true ↦ (do t ← read_as unspent_codec an_unspent (as_sent p); ok (of_value t))
  | false ↦ ok (of_value nothing)
]
read_unspent (of_value v) = raise type_error
read_unspent (of_fields []) = ok (of_value nothing)
read_unspent (of_fields (e ∷ d)) = raise type_error

-- the names of the methods
abbrev pub get_tip_name : Bytes
get_tip_name = 103 ∷ 101 ∷ 116 ∷ 95 ∷ 116 ∷ 105 ∷ 112 ∷ []

abbrev pub next_block_name : Bytes
next_block_name = 110 ∷ 101 ∷ 120 ∷ 116 ∷ 95 ∷ 98 ∷ 108 ∷ 111 ∷ 99 ∷ 107 ∷ []

abbrev pub all_unspents_name : Bytes
all_unspents_name = 97 ∷ 108 ∷ 108 ∷ 95 ∷ 117 ∷ 110 ∷ 115 ∷ 112 ∷ 101 ∷ 110 ∷ 116 ∷ 115 ∷ []

abbrev pub unspent_for_coin_name_name : Bytes
unspent_for_coin_name_name =
    117 ∷ 110 ∷ 115 ∷ 112 ∷ 101 ∷ 110 ∷ 116 ∷ 95 ∷ 102 ∷ 111 ∷ 114 ∷ 95 ∷ 99 ∷ 111 ∷ 105 ∷ 110 ∷ 95
    ∷ 110 ∷ 97 ∷ 109 ∷ 101 ∷ []

-- `HeaderHash.from_bytes`
abbrev read_pointer : Typed → Res Typed
read_pointer = read_as bytes32 (λ h. header_pointer (bare h))

module _ (x : Externals) where
  -- REMOTE_SIGNATURES
  unfoldable pub remote_signatures : Dict Signature
  remote_signatures =
      (
        get_tip_name,
        xform_dict ((genesis_hash_key, read_pointer) ∷ (tip_hash_key, read_pointer) ∷ []),
      )
      ∷ (
        next_block_name,
        xform_dict (
            (header_key, read_as header_codec a_header)
            ∷ (body_key, read_as (body_codec x) a_body)
            ∷ []),
      )
      ∷ (all_unspents_name, xform_dict ((unspents_key, read_names) ∷ []))
      ∷ (unspent_for_coin_name_name, read_unspent)
      ∷ []

  -- the end of `invoke_remote`, once the response is there
  unfoldable pub transform_response : Bytes → Signature
  unfolding remote_signatures
  transform_response method response = elim (lookup method remote_signatures) [
    | none ↦ ok response
    | some transformation ↦ transformation response
  ]
