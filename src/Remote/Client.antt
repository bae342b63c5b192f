-- ===== src/Remote/Client.antt =====
-- remote/client.py: the calls of a client, and the task that brings each response to its caller. A
-- future that nobody holds any more leaves the weak dictionary; this is left out, since a caller holds the
-- future that it waits for.
pub mod Routing
use ledger_sim.Prelude.{
  ℕ, zero, suc, ◌+◌, ◌<◌, ◌≡◌, refl, sym, ap, ◌∙◌, Bool, true, false, Option, none, some, List, [],
  ◌∷◌, ◌++◌, Bytes, map, ◌==◌, ==_iff, ltb, if◌then◌else◌, arith, inl, inr, Bool-cases,
}
use ledger_sim.Prelude.Dict.{Dict, lookup}
use ledger_sim.Errors.{Res, ok, raise, Exception, attribute_error, connection_reset_error, ◌>>=◌}
use ledger_sim.Prelude.Int.{pos}
use ledger_sim.Remote.Frames.{xform_to_cbor_message}
use ledger_sim.Remote.Streamable.{Plain, Entries, text, number, dict, no_entries, entry_then}
use ledger_sim.Remote.Server.{
  Message, dictionary, not_a_dictionary, get, command_key, nonce_key, arguments_key,
}

-- what `set_result` is given: an error of the remote is a result too
pub data Result (V : Type 0) : Type 0 where
  remote_error returned : Option V → Result V

abbrev pub error_key : Bytes
error_key = 101 ∷ []

abbrev pub result_key : Bytes
result_key = 114 ∷ []

module _ {V : Type 0} where
  unfoldable pub event_stream_to_nonce_result : Message V → Res (Option V × Result V)
  unfolding get
  event_stream_to_nonce_result not_a_dictionary = raise attribute_error
  event_stream_to_nonce_result (dictionary event) = elim (lookup error_key event) [
    | some e ↦ ok (get nonce_key event, remote_error e)
    | none ↦ ok (get nonce_key event, returned (get result_key event))
  ]

-- asyncio.Future, as far as it is used
pub data Future (R : Type 0) : Type 0 where
  pending : Future R
  finished : R → Future R
  failed : Exception → Future R

-- NonceWatcher
pub record Watcher (R : Type 0) : Type 0 where
  pub nonce_to_future : List (ℕ × Future R)
  pub initial_nonce : ℕ
  pub task_done : Bool

-- `dict(c=method, n=nonce, q=kwargs)`
pub record Request (Kwargs : Type 0) : Type 0 where
  pub method : Bytes
  pub nonce : ℕ
  pub kwargs : Kwargs

-- `xform_to_cbor_message(msg)`
unfoldable pub request_message :
    (dumps : Plain → Res Bytes) (loads : Bytes → Res Plain) → Request Entries → Res Bytes
request_message dumps loads r = xform_to_cbor_message dumps loads (
    dict (
      entry_then (text command_key) (text r.method) (
        entry_then (text nonce_key) (number (pos r.nonce))
          (entry_then (text arguments_key) (dict r.kwargs) no_entries))))

module _ {R : Type 0} where
  unfoldable pub new_watcher : Watcher R
  new_watcher = record { nonce_to_future = []; initial_nonce = 0; task_done = false }

  -- `self._nonce_to_future.get(nonce)`
  unfoldable pub find : ℕ → List (ℕ × Future R) → Option (Future R)
  find n [] = none
  find n ((m, f) ∷ fs) = if m == n then some f else find n fs

  unfoldable pub next_nonce : Watcher R → ℕ × Watcher R
  next_nonce w = (w.initial_nonce, record w { initial_nonce = w.initial_nonce + 1 })

  -- The future is the entry of the nonce in the dictionary afterwards.
  unfoldable pub future_for_nonce : ℕ → Watcher R → Res (Unit {0}) × Watcher R
  unfolding find
  future_for_nonce nonce w =
      if w.task_done
      then (raise connection_reset_error, w)
      else elim (find nonce w.nonce_to_future) [
        | some f ↦ (ok tt, w)
        | none ↦ (ok tt, record w { nonce_to_future = w.nonce_to_future ++ (nonce, pending) ∷ [] })
      ]

  -- `if future and not future.done(): future.set_result(result)`
  abbrev pub set_result : R → Future R → Future R
  set_result r pending = finished r
  set_result r (finished r') = finished r'
  set_result r (failed e) = failed e

  -- a round of the loop of `run`; a nonce that is not a number has no future
  unfoldable pub settle : Option ℕ → R → List (ℕ × Future R) → List (ℕ × Future R)
  settle none r fs = fs
  settle (some n) r [] = []
  settle (some n) r ((m, f) ∷ fs) =
      let later = settle (some n) r fs in
      if m == n then (m, set_result r f) ∷ fs else (m, f) ∷ later

  -- `if not f.done(): f.set_exception(ex)`
  abbrev pub reset : Future R → Future R
  reset pending = failed connection_reset_error
  reset (finished r) = finished r
  reset (failed e) = failed e

  unfoldable pub reset_all : List (ℕ × Future R) → List (ℕ × Future R)
  reset_all [] = []
  reset_all ((m, f) ∷ fs) = (m, reset f) ∷ reset_all fs

  unfoldable pub run_events : List (Option ℕ × R) → List (ℕ × Future R) → List (ℕ × Future R)
  unfolding settle reset_all
  run_events [] fs = reset_all fs
  run_events ((n, r) ∷ events) fs = run_events events (settle n r fs)

  -- `run`, over the events of a stream that ended
  unfoldable pub run : List (Option ℕ × R) → Watcher R → Watcher R
  unfolding run_events
  run events w = record w {
    nonce_to_future = run_events events w.nonce_to_future;
    task_done = true;
  }

  -- What is written, once there is a future. Where the message cannot be made, the future stays.
  unfoldable pub request :
      {Kwargs Blob : Type 0}
      → (Request Kwargs → Res Blob)
      → Bytes
      → Kwargs
      → ℕ
      → Res (Unit {0}) × Watcher R
      → Res Blob × Watcher R
  request to_message method kwargs nonce (ok future, w) =
      (to_message (record { method = method; nonce = nonce; kwargs = kwargs }), w)
  request to_message method kwargs nonce (raise e, w) = (raise e, w)

  -- `invoke_remote`, up to the message that it writes; `to_message` is `request_message`
  unfoldable pub invoke_remote :
      {Kwargs Blob : Type 0}
      → (Request Kwargs → Res Blob)
      → Bytes
      → Kwargs
      → Watcher R
      → Res Blob × Watcher R
  unfolding next_nonce future_for_nonce request
  invoke_remote to_message method kwargs w =
      let (nonce, w') = next_nonce w in
      request to_message method kwargs nonce (future_for_nonce nonce w')
