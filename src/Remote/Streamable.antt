-- ===== src/Remote/Streamable.antt =====
-- `transform_to_streamable` of utils/cbor_messages.py: the values that a message is made of, and the
-- plain ones that cbor can write. A string is given by its bytes.
use ledger_sim.Prelude.{Bool, true, false, Bytes, bytes_eq, if◌then◌else◌}
use ledger_sim.Prelude.Int.{ℤ, eqb_ℤ}
use ledger_sim.Errors.{Res, ok, raise, type_error, ◌>>=◌, ◌>>◌}

mutual
  -- `object` has a `__bytes__`, with what it returns or raises; `opaque` cannot be iterated.
  pub data Value : Type 0 where
    none_value opaque : Value
    text : Bytes → Value
    byte_string : Bytes → Value
    number : ℤ → Value
    object : Res Bytes → Value
    dict : Entries → Value
    iterable : Values → Value

  pub data Values : Type 0 where
    no_values : Values
    value_then : Value → Values → Values

  pub data Entries : Type 0 where
    no_entries : Entries
    entry_then : (key : Value) (value : Value) → Entries → Entries

mutual
  pub data Plain : Type 0 where
    plain_none : Plain
    plain_text plain_bytes : Bytes → Plain
    plain_number : ℤ → Plain
    plain_dict : PlainEntries → Plain
    plain_list : Plains → Plain

  pub data Plains : Type 0 where
    no_plains : Plains
    plain_then : Plain → Plains → Plains

  pub data PlainEntries : Type 0 where
    no_plain_entries : PlainEntries
    plain_entry_then : (key : Plain) (value : Plain) → PlainEntries → PlainEntries

-- A list and a dictionary cannot be a key.
unfoldable pub check_hashable : Plain → Res (Unit {0})
check_hashable (plain_dict d) = raise type_error
check_hashable (plain_list l) = raise type_error
check_hashable plain_none = ok tt
check_hashable (plain_text t) = ok tt
check_hashable (plain_bytes b) = ok tt
check_hashable (plain_number n) = ok tt

-- `==` of two keys
unfoldable pub key_eq : Plain → Plain → Bool
key_eq plain_none plain_none = true
key_eq (plain_text t) (plain_text t') = bytes_eq t t'
key_eq (plain_bytes b) (plain_bytes b') = bytes_eq b b'
key_eq (plain_number n) (plain_number n') = eqb_ℤ n n'
key_eq _ _ = false

-- `new_d[key] = value`
unfoldable pub set_item : Plain → Plain → PlainEntries → PlainEntries
unfolding key_eq
set_item key value no_plain_entries = plain_entry_then key value no_plain_entries
set_item key value (plain_entry_then k v d) =
    let later = set_item key value d in
    if key_eq k key then plain_entry_then k value d else plain_entry_then k v later

unfoldable mutual
  pub transform_to_streamable : Value → Res Plain
  transform_to_streamable (object b) = do blob ← b; ok (plain_bytes blob)
  transform_to_streamable none_value = ok plain_none
  transform_to_streamable (text t) = ok (plain_text t)
  transform_to_streamable (byte_string b) = ok (plain_bytes b)
  transform_to_streamable (number n) = ok (plain_number n)
  transform_to_streamable (dict d) = do
    new_d ← transform_entries d no_plain_entries
    ok (plain_dict new_d)
  transform_to_streamable (iterable l) = do items ← transform_values l; ok (plain_list items)
  transform_to_streamable opaque = raise type_error

  pub transform_values : Values → Res Plains
  transform_values no_values = ok no_plains
  transform_values (value_then v vs) = do
    p ← transform_to_streamable v
    ps ← transform_values vs
    ok (plain_then p ps)

  -- the loop over `d.items()`, which finds the value before the key
  pub transform_entries : Entries → PlainEntries → Res PlainEntries
  transform_entries no_entries new_d = ok new_d
  transform_entries (entry_then k v more) new_d = do
    value ← transform_to_streamable v
    key ← transform_to_streamable k
    check_hashable key
    transform_entries more (set_item key value new_d)
