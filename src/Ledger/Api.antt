-- ===== src/Ledger/Api.antt =====
-- The methods of LedgerAPI in ledger/ledger_api.py as a server calls them: with the keywords of a message,
-- which `@api_request` decodes. A text is given by its bytes. The listings of blocks, which may not
-- return, stand for what they return.
pub mod Methods
pub mod Values
pub mod Serves
use ledger_sim.Prelude.{
  ℕ, Bool, true, false, not, Option, none, some, List, [], ◌∷◌, Bytes, elem, ltb, if◌then◌else◌,
}
use ledger_sim.Prelude.Dict.{Dict, lookup, keys}
use ledger_sim.Prelude.Int.{pos, negsuc}
use ledger_sim.Errors.{Res, ok, raise, raise_if, for_each, value_error, type_error, ◌>>=◌, ◌>>◌}
use ledger_sim.Externals.{Externals}
use ledger_sim.Atoms.BigEndian.{from_big_endian}
use ledger_sim.Atoms.Codec.{Codec, from_bytes}
use ledger_sim.Atoms.SizedBytes.{bytes32}
use ledger_sim.Hashable.Unspent.{Unspent}
use ledger_sim.Hashable.Blocks.{Body, Header, HeaderPointer, header_codec}
use ledger_sim.Hashable.SpendBundle.{SpendBundle, spend_bundle_codec}
use ledger_sim.Storage.Heap.{Heap}
use ledger_sim.Remote.Streamable.{
  Plain, Plains, PlainEntries, plain_none, plain_text, plain_bytes, plain_number, plain_dict,
  plain_list, no_plains, plain_then, no_plain_entries, plain_entry_then,
}
use ledger_sim.Remote.Decorators.{transform_args}
use ledger_sim.Remote.Server.{Api}
use ledger_sim.Ledger.{
  Ledger, Call, push_tx, next_block, skip_milliseconds, get_tip, all_unspent_names, preimage,
  unspent,
}

-- the value of a keyword: what the message holds, or what it was decoded to
pub data Argument : Type 0 where
  raw : Option Plain → Argument
  bundle : SpendBundle → Argument
  header : Header → Argument
  hash : Bytes → Argument
  milliseconds : ℕ → Argument

-- what a method returns; the texts are left out
pub data Answer : Type 0 where
  pong accepted : Answer
  tip : HeaderPointer × ℕ × Bytes → Answer
  blocks : List (Option Body) → Answer
  block : Header × Option Body → Answer
  names : List Bytes → Answer
  blob : Option Bytes → Answer
  entry : Option Unspent → Answer
  clock : ℕ → Answer

abbrev pub Keywords : Type 0
Keywords = Dict Argument

-- the ledger and the databases
abbrev pub Served : Type 0
Served = Ledger × Heap

abbrev pub Method : Type 0
Method = Keywords → Served → Res Answer × Served

-- `io.BytesIO(v)`, which is empty for None
unfoldable pub bytes_io : Argument → Res Bytes
bytes_io (raw none) = ok []
bytes_io (raw (some (plain_bytes b))) = ok b
bytes_io v = raise type_error

-- `T.from_bytes`
unfoldable pub decode : {T : Type 0} → Codec T → (T → Argument) → Argument → Res Argument
unfolding bytes_io
decode c wrap v = do b ← bytes_io v; t ← from_bytes c b; ok (wrap t)

-- what `bytes(v)` makes of an iterable: each item is a number below 256
unfoldable pub byte_values : Plains → Res Bytes
byte_values no_plains = ok []
byte_values (plain_then (plain_number (pos n)) vs) = do
  raise_if (not (ltb n 256)) value_error
  more ← byte_values vs
  ok (n ∷ more)
byte_values (plain_then (plain_number (negsuc n)) vs) = raise value_error
byte_values (plain_then v vs) = raise type_error

-- the keys of a dictionary, which is iterated over
unfoldable pub keys_of : PlainEntries → Plains
keys_of no_plain_entries = no_plains
keys_of (plain_entry_then k v d) = plain_then k (keys_of d)

unfoldable pub int_bytes : Argument → Res Bytes
unfolding byte_values keys_of
int_bytes (raw (some (plain_bytes b))) = ok b
int_bytes (raw (some (plain_list vs))) = byte_values vs
int_bytes (raw (some (plain_dict d))) = byte_values (keys_of d)
int_bytes v = raise type_error

-- `uint64.from_bytes(_, 'big')`, which is the method of `int`
unfoldable pub decode_milliseconds : Argument → Res Argument
unfolding int_bytes
decode_milliseconds v = do b ← int_bytes v; ok (milliseconds (from_big_endian b))

-- the names of the parameters
abbrev pub tx_key : Bytes
tx_key = 116 ∷ 120 ∷ []

abbrev pub most_recent_header_key : Bytes
most_recent_header_key =
    109 ∷ 111 ∷ 115 ∷ 116 ∷ 95 ∷ 114 ∷ 101 ∷ 99 ∷ 101 ∷ 110 ∷ 116 ∷ 95 ∷ 104 ∷ 101 ∷ 97 ∷ 100 ∷ 101
    ∷ 114 ∷ []

abbrev pub coinbase_puzzle_hash_key : Bytes
coinbase_puzzle_hash_key =
    99 ∷ 111 ∷ 105 ∷ 110 ∷ 98 ∷ 97 ∷ 115 ∷ 101 ∷ 95 ∷ 112 ∷ 117 ∷ 122 ∷ 122 ∷ 108 ∷ 101 ∷ 95 ∷ 104
    ∷ 97 ∷ 115 ∷ 104 ∷ []

abbrev pub fees_puzzle_hash_key : Bytes
fees_puzzle_hash_key =
    102 ∷ 101 ∷ 101 ∷ 115 ∷ 95 ∷ 112 ∷ 117 ∷ 122 ∷ 122 ∷ 108 ∷ 101 ∷ 95 ∷ 104 ∷ 97 ∷ 115 ∷ 104 ∷ []

abbrev pub ms_key : Bytes
ms_key = 109 ∷ 115 ∷ []

abbrev pub hash_key : Bytes
hash_key = 104 ∷ 97 ∷ 115 ∷ 104 ∷ []

abbrev pub coin_name_key : Bytes
coin_name_key = 99 ∷ 111 ∷ 105 ∷ 110 ∷ 95 ∷ 110 ∷ 97 ∷ 109 ∷ 101 ∷ []

abbrev pub m_key : Bytes
m_key = 109 ∷ []

-- `f(**keywords)`: a keyword that names no parameter is a TypeError.
unfoldable pub bind : List Bytes → Keywords → Res Keywords
bind parameters kwargs = do
  for_each (λ k. raise_if (not (elem k parameters)) type_error) (keys kwargs)
  ok kwargs

-- A parameter without an argument is a TypeError too.
abbrev pub the_bundle : Option Argument → Res SpendBundle
the_bundle (some (bundle b)) = ok b
the_bundle v = raise type_error

abbrev pub the_header : Option Argument → Res Header
the_header (some (header h)) = ok h
the_header v = raise type_error

abbrev pub the_hash : Option Argument → Res Bytes
the_hash (some (hash h)) = ok h
the_hash v = raise type_error

abbrev pub the_milliseconds : Option Argument → Res ℕ
the_milliseconds (some (milliseconds n)) = ok n
the_milliseconds v = raise type_error

-- A key that a dictionary is asked for: bytes may be found, a list or a dictionary cannot be hashed, and
-- any other value is not there.
abbrev pub the_key : Option Argument → Res (Option Bytes)
the_key (some (raw (some (plain_bytes b)))) = ok (some b)
the_key (some (raw (some (plain_list vs)))) = raise type_error
the_key (some (raw (some (plain_dict d)))) = raise type_error
the_key (some (raw v)) = ok none
the_key v = raise type_error

-- a method that uses its arguments once they are bound
unfoldable pub with_arguments :
    {A : Type 0} → Res A → (A → Served → Res Answer × Served) → Served → Res Answer × Served
with_arguments (ok a) f s = f a s
with_arguments (raise e) f s = (raise e, s)

unfoldable pub call : {A : Type 0} → (A → Answer) → Call A → Served → Res Answer × Served
call answer f (l, heap) = let (r, l', heap') = f l heap in ((do a ← r; ok (answer a)), (l', heap'))

-- a method that only reads
abbrev pub reads : {A : Type 0} → (A → Answer) → (Ledger → Heap → A) → Served → Res Answer × Served
reads answer f (l, heap) = (ok (answer (f l heap)), (l, heap))
