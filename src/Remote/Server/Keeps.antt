-- ===== src/Remote/Server/Keeps.antt =====
-- What the methods of an API keep, the server of remote/api_server.py keeps.
use ledger_sim.Prelude.{◌≡◌, refl, Option, none, some, List, [], ◌∷◌}
use ledger_sim.Prelude.Dict.{Dict}
use ledger_sim.Errors.{Res, ok, raise, Exception}
use ledger_sim.Remote.Server.{
  Message, dictionary, not_a_dictionary, Api, Reply, get, command_key, keywords, replied,
  run_command, response_for_message, then_responses, api_server, MapError, passed_on, stream_ended,
  item_skipped,
}

module _ {V Args R St : Type 0} (api : Api V Args R St) (P : St → Type 0) where
  -- Each method keeps it, whatever its arguments, and whether it returns or raises.
  abbrev pub MethodsKeep : Type 0
  MethodsKeep =
      (c : Option V) (f : Args → St → Res R × St)
      → api.method c ≡ some f
      → (args : Args) (s : St) → P s
      → P (f args s).1

  module _ (keep : MethodsKeep) where
    replied-Keeps : (t : Res R × St) → P t.1 → P (replied api t).1
    unfolding replied
    replied-Keeps (ok r, s) h = h
    replied-Keeps (raise e, s) h = h

    run_command-Keeps : (message : Dict (Option V)) (s : St) → P s → P (run_command api message s).1
    unfolding run_command
    run_command-Keeps message s h = found (api.method (get command_key message)) refl
      where
        called :
            (f : Args → St → Res R × St)
            → api.method (get command_key message) ≡ some f
            → (a : Res Args) → keywords api message ≡ a
            → P (run_command api message s).1
        called f e (ok args) e' =
            rw (run_command, e, e') (replied-Keeps (f args s) (keep _ f e args s h))
        called f e (raise b) e' = rw (run_command, e, e') h

        found :
            (m : Option (Args → St → Res R × St))
            → api.method (get command_key message) ≡ m
            → P (run_command api message s).1
        found none e = rw (run_command, e) h
        found (some f) e = called f e (keywords api message) refl

    response-Keeps : (m : Message V) (s : St) → P s → P (response_for_message api m s).1
    unfolding response_for_message
    response-Keeps (dictionary d) s h = run_command-Keeps d s h
    response-Keeps not_a_dictionary s h = h

    then-Keeps :
        (response : Option (Reply R × V)) (t : Res (List (Option (Reply R × V))) × St)
        → P t.1
        → P (then_responses api response t).1
    unfolding then_responses
    then-Keeps response (ok responses, s) h = h
    then-Keeps response (raise e, s) h = h

    module _ (on_error : Exception → MapError) where
      step-Keeps :
          (m : Message V) (ms : List (Message V)) (s : St)
          → P s
          → ((s : St) → P s → P (api_server api on_error ms s).1)
          → (r : Res (Option (Reply R × V))) → (response_for_message api m s).0 ≡ r
          → P (api_server api on_error (m ∷ ms) s).1
      unfolding api_server
      step-Keeps m ms s h later (ok response) e =
          rw (api_server, e)
            (then-Keeps response (api_server api on_error ms (response_for_message api m s).1)
              (later (response_for_message api m s).1 (response-Keeps m s h)))
      step-Keeps m ms s h later (raise b) e = rw (api_server, e) (stopped (on_error b))
        where
          stopped :
              (o : MapError)
              → (let t : Res (List (Option (Reply R × V))) × St = elim o [
                | passed_on ↦ (raise b, (response_for_message api m s).1)
                | stream_ended ↦ (ok [], (response_for_message api m s).1)
                | item_skipped ↦ api_server api on_error ms (response_for_message api m s).1
              ] in
                  P t.1)
          stopped passed_on = response-Keeps m s h
          stopped stream_ended = response-Keeps m s h
          stopped item_skipped = later (response_for_message api m s).1 (response-Keeps m s h)

      pub api_server-Keeps :
          (ms : List (Message V)) (s : St) → P s → P (api_server api on_error ms s).1
      unfolding api_server
      api_server-Keeps [] s h = h
      api_server-Keeps (m ∷ ms) s h =
          step-Keeps m ms s h (api_server-Keeps ms) (response_for_message api m s).0 refl
