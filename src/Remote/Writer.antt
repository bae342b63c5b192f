-- ===== src/Remote/Writer.antt =====
-- The end of `api_server` of remote/api_server.py: how a response is written, also where it cannot be made
-- plain. The texts of errors are parameters, and what `aiter.map_aiter` does where `to_cbor` raises.
pub mod Answered
use ledger_sim.Prelude.{Option, none, some, List, [], ◌∷◌, ◌++◌, Bytes}
use ledger_sim.Errors.{Res, ok, raise, Exception, ◌>>=◌}
use ledger_sim.Remote.Streamable.{Value, none_value, text, dict, no_entries, entry_then, Plain}
use ledger_sim.Remote.Frames.{xform_to_cbor_message}
use ledger_sim.Remote.Server.{
  MapError, passed_on, stream_ended, item_skipped, Reply, result, missing_command, exception_text,
  nonce_key,
}
use ledger_sim.Remote.Client.{error_key, result_key}

module _ {V R : Type 0} (result_value : R → Value) (nonce_value : V → Value)
    (error_text : Reply R → Bytes) where
  -- `dict(r=r)` and `dict(e=…)`, with `d["n"] = nonce`; there may be no response at all
  unfoldable pub response_value : Option (Reply R × V) → Value
  response_value none = none_value
  response_value (some (result r, nonce)) = dict (
      entry_then (text result_key) (result_value r)
        (entry_then (text nonce_key) (nonce_value nonce) no_entries))
  response_value (some (reply, nonce)) = dict (
      entry_then (text error_key) (text (error_text reply))
        (entry_then (text nonce_key) (nonce_value nonce) no_entries))

module _ (dumps : Plain → Res Bytes) (loads : Bytes → Res Plain) (problem : Exception → Bytes) where
  -- `to_cbor`, without the writer
  unfoldable pub to_cbor : Value → Res Bytes
  unfolding xform_to_cbor_message
  to_cbor response = elim (xform_to_cbor_message dumps loads response) [
    | ok msg ↦ ok msg
    | raise ex ↦ xform_to_cbor_message dumps loads (text (problem ex))
  ]

  -- `async for writer, cbor_msg in cbor_msg_aiter: writer.write(cbor_msg)`, for one writer
  unfoldable pub write_responses : (Exception → MapError) → List Value → Res Bytes
  unfolding to_cbor
  write_responses on_error [] = ok []
  write_responses on_error (response ∷ responses) = elim (to_cbor response) [
    | ok msg ↦ do rest ← write_responses on_error responses; ok (msg ++ rest)
    | raise e ↦ elim (on_error e) [
      | passed_on ↦ raise e
      | stream_ended ↦ ok []
      | item_skipped ↦ write_responses on_error responses
    ]
  ]
