-- ===== src/Tests/Messages.antt =====
-- Messages over a stream, a server with one method, and a client with two calls.
use ledger_sim.Prelude.{
  ℕ, ◌+◌, ◌≡◌, refl, sym, ap, false, Option, none, some, List, [], ◌∷◌, ◌++◌, Bytes, map, bytes_eq,
  elem, arith, if◌then◌else◌, ◌==◌,
}
use ledger_sim.Prelude.Dict.{Dict, lookup, insert}
use ledger_sim.Errors.{
  Res, ok, raise, Exception, type_error, value_error, name_error, map_res, ok-injective,
}
use ledger_sim.Atoms.BigEndian.{big_endian}
use ledger_sim.Atoms.Ints.{pack}
use ledger_sim.Remote.Streamable.{
  Value, byte_string, object, Plain, plain_none, plain_text, plain_bytes, plain_number, plain_dict,
  plain_list, transform_to_streamable,
}
use ledger_sim.Remote.Frames.{xform_to_cbor_message, write_all, reader_to_cbor_stream}
use ledger_sim.Remote.Frames.Stream.{
  LoadsBack, reader_to_cbor_stream-write_all, reader_to_cbor_stream_ends,
}
use ledger_sim.Remote.Decorators.{
  transform_items, transform_args, IsTransformed, transform_args_lem,
}
use ledger_sim.Remote.Server.{
  get, command_key, nonce_key, arguments_key, dictionary, not_a_dictionary, Reply, Api, api_server,
  nonce_of, state_after, api_server_lem, api_server-not_a_dictionary, MapError, passed_on,
  item_skipped,
}
use ledger_sim.Remote.Client.{pending, Watcher, find, run}
use ledger_sim.Remote.Client.Routing.{first_for, settled, on_found, find-run}

-- a format that has bytes only
abbrev dumps : Plain → Res Bytes
dumps (plain_bytes b) = ok b
dumps plain_none = raise type_error
dumps (plain_text t) = raise type_error
dumps (plain_number n) = raise type_error
dumps (plain_dict d) = raise type_error
dumps (plain_list l) = raise type_error

abbrev loads : Bytes → Res Plain
loads b = ok (plain_bytes b)

loads_back : LoadsBack dumps loads
loads_back (plain_bytes b) blob e = ap (λ t. ok (plain_bytes t)) (sym (ok-injective e))
loads_back plain_none blob e = cc
loads_back (plain_text t) blob e = cc
loads_back (plain_number n) blob e = cc
loads_back (plain_dict d) blob e = cc
loads_back (plain_list l) blob e = cc

abbrev two_messages : List Value
two_messages = byte_string (7 ∷ 8 ∷ []) ∷ object (ok (9 ∷ [])) ∷ []

abbrev written : Bytes
written = 0 ∷ 0 ∷ 0 ∷ 2 ∷ 7 ∷ 8 ∷ 0 ∷ 0 ∷ 0 ∷ 1 ∷ 9 ∷ []

two_written : write_all dumps loads two_messages ≡ ok written
unfolding write_all xform_to_cbor_message transform_to_streamable pack big_endian
two_written = refl

reader_to_cbor_stream-write_all_example :
    (ps : List Plain) × (map_res transform_to_streamable two_messages ≡ ok ps)
    × (reader_to_cbor_stream dumps loads 3 (written ++ 0 ∷ 0 ∷ []) ≡ some ps)
reader_to_cbor_stream-write_all_example =
    reader_to_cbor_stream-write_all dumps loads loads_back two_messages written (0 ∷ 0 ∷ []) 3
      two_written (omega arith) (omega arith)

reader_to_cbor_stream_ends_example :
    (ps : List Plain) × (reader_to_cbor_stream dumps loads 12 written ≡ some ps)
reader_to_cbor_stream_ends_example = reader_to_cbor_stream_ends dumps loads 12 written (omega arith)

-- one keyword, whose value gets one more
abbrev one_more : Dict (ℕ → Res ℕ)
one_more = (5 ∷ [], λ n. ok (n + 1)) ∷ []

abbrev two_items : Dict ℕ
two_items = (4 ∷ [], 40) ∷ (5 ∷ [], 50) ∷ []

two_transformed : transform_args one_more two_items ≡ ok ((4 ∷ [], 40) ∷ (5 ∷ [], 51) ∷ [])
unfolding transform_args transform_items lookup insert bytes_eq
two_transformed = refl

transform_args_lem_example :
    IsTransformed
      (lookup (5 ∷ []) one_more)
      (lookup (5 ∷ []) two_items)
      (lookup (5 ∷ []) two_items)
      (lookup (5 ∷ []) ((4 ∷ [], 40) ∷ (5 ∷ [], 51) ∷ []))
unfolding elem
transform_args_lem_example =
    transform_args_lem one_more two_items ((4 ∷ [], 40) ∷ (5 ∷ [], 51) ∷ []) (refl, tt)
      two_transformed (5 ∷ [])

-- an API whose method 1 adds its argument to the state, and raises for 0
abbrev add_to : ℕ → ℕ → Res ℕ × ℕ
add_to n s = if n == 0 then (raise value_error, s) else (ok (n + s), n + s)

abbrev adder : Api ℕ ℕ ℕ ℕ
adder = record {
  method = λ c. elim c [ none ↦ none | some k ↦ if k == 1 then some add_to else none ];
  as_keywords = λ v. elim v [ none ↦ raise type_error | some n ↦ ok n ];
  no_keywords = 0;
}

-- an aiter that passes every exception on, and one that skips the item
abbrev passes_on : Exception → MapError
passes_on e = passed_on

abbrev skips : Exception → MapError
skips e = item_skipped

-- a call of the method, one of a method that is not there, and one without a nonce
abbrev three_calls : List (Dict (Option ℕ))
three_calls =
    ((command_key, some 1) ∷ (nonce_key, some 20) ∷ (arguments_key, some 6) ∷ [])
    ∷ ((command_key, some 2) ∷ (nonce_key, some 21) ∷ [])
    ∷ ((command_key, some 1) ∷ (arguments_key, some 3) ∷ [])
    ∷ []

api_server_lem_example :
    (responses : List (Option (Reply ℕ × ℕ))) × ((api_server adder passes_on
        (map dictionary three_calls)
        10).0
      ≡ ok responses)
    × (map (nonce_of adder) responses ≡ map (get nonce_key) three_calls)
api_server_lem_example = api_server_lem adder passes_on three_calls 10

api_server-not_a_dictionary_example :
    api_server adder skips (map dictionary three_calls ++ not_a_dictionary ∷ []) 10
    ≡ api_server adder skips (map dictionary three_calls ++ []) 10
api_server-not_a_dictionary_example = api_server-not_a_dictionary adder skips three_calls [] 10

not_a_dictionary_passed_on :
    api_server adder passes_on (map dictionary three_calls ++ not_a_dictionary ∷ []) 10
    ≡ (raise name_error, state_after adder three_calls 10)
not_a_dictionary_passed_on = api_server-not_a_dictionary adder passes_on three_calls [] 10

-- two calls, of which the second one is answered, twice
abbrev two_waiting : Watcher ℕ
two_waiting = record {
  nonce_to_future = (0, pending) ∷ (1, pending) ∷ [];
  initial_nonce = 2;
  task_done = false;
}

abbrev answers : List (Option ℕ × ℕ)
answers = (none, 70) ∷ (some 1, 80) ∷ (some 1, 90) ∷ []

find-run_example :
    find 1 (run answers two_waiting).nonce_to_future
    ≡ on_found (settled (first_for 1 answers)) (find 1 two_waiting.nonce_to_future)
find-run_example = find-run 1 answers two_waiting

-- a format that writes one byte for everything
abbrev dumps_any : Plain → Res Bytes
dumps_any p = ok (9 ∷ [])
