-- ===== src/Ledger/Api/Values.antt =====
-- The dictionaries that the methods of ledger/ledger_api.py return, before they are made plain for a
-- message. The text of a response is a parameter.
use ledger_sim.Prelude.{Option, none, some, List, [], ◌∷◌, Bytes}
use ledger_sim.Prelude.Int.{pos}
use ledger_sim.Errors.{ok, raise, attribute_error, ◌>>=◌}
use ledger_sim.Externals.{Externals}
use ledger_sim.Atoms.Codec.{Codec}
use ledger_sim.Atoms.StreamableList.{streamable_list}
use ledger_sim.Hashable.Unspent.{unspent_codec}
use ledger_sim.Hashable.Blocks.{Body, hash_of, header_codec, body_codec}
use ledger_sim.Remote.Streamable.{
  Value, Values, none_value, text, byte_string, number, object, dict, iterable, no_values,
  value_then, no_entries, entry_then,
}
use ledger_sim.Ledger.Api.{Answer, pong, accepted, tip, blocks, block, names, blob, entry, clock}

-- the keys
abbrev pub response_key : Bytes
response_key = 114 ∷ 101 ∷ 115 ∷ 112 ∷ 111 ∷ 110 ∷ 115 ∷ 101 ∷ []

abbrev pub tip_hash_key : Bytes
tip_hash_key = 116 ∷ 105 ∷ 112 ∷ 95 ∷ 104 ∷ 97 ∷ 115 ∷ 104 ∷ []

abbrev pub tip_index_key : Bytes
tip_index_key = 116 ∷ 105 ∷ 112 ∷ 95 ∷ 105 ∷ 110 ∷ 100 ∷ 101 ∷ 120 ∷ []

abbrev pub genesis_hash_key : Bytes
genesis_hash_key = 103 ∷ 101 ∷ 110 ∷ 101 ∷ 115 ∷ 105 ∷ 115 ∷ 95 ∷ 104 ∷ 97 ∷ 115 ∷ 104 ∷ []

abbrev pub header_key : Bytes
header_key = 104 ∷ 101 ∷ 97 ∷ 100 ∷ 101 ∷ 114 ∷ []

abbrev pub body_key : Bytes
body_key = 98 ∷ 111 ∷ 100 ∷ 121 ∷ []

abbrev pub unspents_key : Bytes
unspents_key = 117 ∷ 110 ∷ 115 ∷ 112 ∷ 101 ∷ 110 ∷ 116 ∷ 115 ∷ []

-- a list of byte strings
unfoldable pub byte_strings : List Bytes → Values
byte_strings [] = no_values
byte_strings (n ∷ ns) = value_then (byte_string n) (byte_strings ns)

-- A list of bodies streams each; None has no `stream`.
unfoldable pub optional : {T : Type 0} → Codec T → Codec (Option T)
optional c = record {
  stream = λ o. elim o [ none ↦ raise attribute_error | some v ↦ c.stream v ];
  parse = λ f. (do (v, f') ← c.parse f; ok (some v, f'));
}

module _ (x : Externals) (shown : Answer → Bytes) where
  -- an object or None
  unfoldable pub body_value : Option Body → Value
  body_value none = none_value
  body_value (some b) = object ((body_codec x).stream b)

  unfoldable pub answer_value : Answer → Value
  unfolding byte_strings body_value optional
  answer_value (tip (tip_hash, tip_index, genesis_hash)) = dict (
      entry_then (text tip_hash_key) (byte_string (hash_of tip_hash)) (
        entry_then (text tip_index_key) (number (pos tip_index))
          (entry_then (text genesis_hash_key) (byte_string genesis_hash) no_entries)))
  answer_value (block (h, b)) = dict (
      entry_then (text header_key) (object (header_codec.stream h))
        (entry_then (text body_key) (body_value b) no_entries))
  answer_value (names ns) =
      dict (entry_then (text unspents_key) (iterable (byte_strings ns)) no_entries)
  answer_value (blocks bs) = object ((streamable_list (optional (body_codec x))).stream bs)
  answer_value (entry none) = none_value
  answer_value (entry (some u)) = object (unspent_codec.stream u)
  answer_value (blob none) = none_value
  answer_value (blob (some b)) = byte_string b
  answer_value (clock n) = number (pos n)
  answer_value pong = dict (entry_then (text response_key) (text (shown pong)) no_entries)
  answer_value accepted = dict (entry_then (text response_key) (text (shown accepted)) no_entries)
