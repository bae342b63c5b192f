-- ===== src/Tests/Served.antt =====
-- The ledger's server at messages that farm a block, move the clock, and stop it.
use ledger_sim.Prelude.{◌≡◌, ◌≢◌, refl, Option, some, List, [], ◌∷◌, bytes_eq, replicate, elem}
use ledger_sim.Prelude.Dict.{lookup, insert}
use ledger_sim.Prelude.Int.{pos}
use ledger_sim.Errors.{Res, ok, Exception}
use ledger_sim.Hashable.Blocks.{Body, Header}
use ledger_sim.Storage.Heap.{Heap}
use ledger_sim.Remote.Streamable.{
  Plain, plain_text, plain_bytes, plain_number, plain_dict, no_plain_entries, plain_entry_then,
}
use ledger_sim.Remote.Server.{
  Message, dictionary, not_a_dictionary, result, command_key, nonce_key, arguments_key, get,
  keywords, replied, run_command, with_nonce, response_for_message, then_responses, api_server,
  MapError, passed_on,
}
use ledger_sim.Remote.Decorators.{transform_items, transform_args}
use ledger_sim.Ledger.{Ledger, new_ledger, skip_milliseconds, genesis_hash}
use ledger_sim.Ledger.Invariant.{IsValid}
use ledger_sim.Ledger.Reach.{Reaches}
use ledger_sim.Ledger.Api.{
  clock, ms_key, coinbase_puzzle_hash_key, fees_puzzle_hash_key, int_bytes, decode_milliseconds,
  bind, with_arguments, call,
}
use ledger_sim.Ledger.Api.Methods.{
  keywords_of, keywords_of_value, command_named, skip_milliseconds_arguments, perform, ledger_api,
}
use ledger_sim.Atoms.BigEndian.{from_big_endian}
use ledger_sim.Cmds.{run_ledger_api}
use ledger_sim.Cmds.Valid.{run_ledger_api-IsValid}
use ledger_sim.Tests.Toy.{toy, toy_sha256}

abbrev all_blocks : Ledger → Heap → Res (List (Option Body))
all_blocks l heap = ok []

abbrev recent_blocks : Header → Ledger → Heap → Res (List (Option Body))
recent_blocks h l heap = ok []

-- {"c": "skip_milliseconds", "n": 7, "q": {"ms": b"\1\0"}}
abbrev skip : Message Plain
skip = dictionary (
    (
      command_key,
      some (
          plain_text (
            115 ∷ 107 ∷ 105 ∷ 112 ∷ 95 ∷ 109 ∷ 105 ∷ 108 ∷ 108 ∷ 105 ∷ 115 ∷ 101 ∷ 99 ∷ 111 ∷ 110
            ∷ 100 ∷ 115 ∷ [])),
    )
    ∷ (nonce_key, some (plain_number (pos 7)))
    ∷ (
      arguments_key,
      some (
          plain_dict
            (plain_entry_then (plain_text ms_key) (plain_bytes (1 ∷ 0 ∷ [])) no_plain_entries)),
    )
    ∷ [])

-- {"c": "next_block", "n": 8, "q": {…}}
abbrev next : Message Plain
next = dictionary (
    (command_key, some (plain_text (110 ∷ 101 ∷ 120 ∷ 116 ∷ 95 ∷ 98 ∷ 108 ∷ 111 ∷ 99 ∷ 107 ∷ [])))
    ∷ (nonce_key, some (plain_number (pos 8)))
    ∷ (
      arguments_key,
      some (
          plain_dict (
            plain_entry_then (plain_text coinbase_puzzle_hash_key) (plain_bytes (replicate 32 5)) (
              plain_entry_then (plain_text fees_puzzle_hash_key) (plain_bytes (replicate 32 6))
                no_plain_entries))),
    )
    ∷ [])

-- an aiter that passes every exception on
abbrev passes_on : Exception → MapError
passes_on e = passed_on

-- The clock is moved, and the answer has the nonce.
skip_served :
    (run_ledger_api toy all_blocks recent_blocks passes_on (skip ∷ [])).0
    ≡ ok (some (result (clock 256), plain_number (pos 7)) ∷ [])
unfolding run_ledger_api ledger_api api_server response_for_message run_command get keywords replied
    with_nonce then_responses command_named keywords_of_value keywords_of perform
    skip_milliseconds_arguments transform_args transform_items decode_milliseconds int_bytes bind
    with_arguments call skip_milliseconds new_ledger lookup insert elem from_big_endian bytes_eq
skip_served = refl

run_ledger_api-IsValid_example :
    Reaches toy
      (run_ledger_api toy all_blocks recent_blocks passes_on
        (skip ∷ next ∷ not_a_dictionary ∷ [])).1.0
      (run_ledger_api toy all_blocks recent_blocks passes_on
        (skip ∷ next ∷ not_a_dictionary ∷ [])).1.1
    × IsValid toy
        (run_ledger_api toy all_blocks recent_blocks passes_on
          (skip ∷ next ∷ not_a_dictionary ∷ [])).1.0
        (run_ledger_api toy all_blocks recent_blocks passes_on
          (skip ∷ next ∷ not_a_dictionary ∷ [])).1.1
run_ledger_api-IsValid_example =
    run_ledger_api-IsValid toy all_blocks recent_blocks passes_on
      (skip ∷ next ∷ not_a_dictionary ∷ []) toy_sha256 key_differs
  where
    key_differs : toy.hash256 (4 ∷ []) ≢ genesis_hash
    key_differs = λ e. cc
