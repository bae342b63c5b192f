-- ===== src/Remote/Server.antt =====
-- remote/api_server.py: the server that turns messages into calls of an API, one at a time
-- (`workers=1`). The text of an error is left out. What `aiter.map_aiter` does where the mapped function
-- raises is a parameter.
pub mod Keeps
use ledger_sim.Prelude.{
  ◌≡◌, refl, ◌∙◌, ap, ap₂, Option, none, some, List, [], ◌∷◌, ◌++◌, Bytes, map,
}
use ledger_sim.Prelude.Dict.{Dict, lookup}
use ledger_sim.Errors.{Res, ok, raise, Exception, name_error, ok-injective}

-- A value of a message is `none` for Python's None.
module _ {V : Type 0} where
  -- `message.get(key)`
  unfoldable pub get : Bytes → Dict (Option V) → Option V
  get key message = elim (lookup key message) [ none ↦ none | some v ↦ v ]

-- the keys "c", "n" and "q"
abbrev pub command_key : Bytes
command_key = 99 ∷ []

abbrev pub nonce_key : Bytes
nonce_key = 110 ∷ []

abbrev pub arguments_key : Bytes
arguments_key = 113 ∷ []

-- what arrives
pub data Message (V : Type 0) : Type 0 where
  dictionary : Dict (Option V) → Message V
  not_a_dictionary : Message V

-- `dict(r=r)` and `dict(e=…)`
pub data Reply (R : Type 0) : Type 0 where
  result : R → Reply R
  missing_command : Reply R
  exception_text : Exception → Reply R

-- The API object: its methods `do_XXX` by command, which change its state, and what `**` makes of a value.
pub record Api (V Args R St : Type 0) : Type 0 where
  pub method : Option V → Option (Args → St → Res R × St)
  pub as_keywords : Option V → Res Args
  pub no_keywords : Args

-- What `aiter.map_aiter` makes of an exception of the mapped function: it is passed on to who reads the
-- stream, or the stream ends, or the stream goes on with the next item.
pub data MapError : Type 0 where
  passed_on stream_ended item_skipped : MapError

module _ {V Args R St : Type 0} (api : Api V Args R St) where
  unfoldable pub keywords : Dict (Option V) → Res Args
  keywords message = elim (lookup arguments_key message) [
    | none ↦ ok api.no_keywords
    | some args ↦ api.as_keywords args
  ]

  -- the reply to what a method returned or raised
  unfoldable pub replied : Res R × St → Reply R × St
  replied (ok r, s) = (result r, s)
  replied (raise e, s) = (exception_text e, s)

  unfoldable pub run_command : Dict (Option V) → St → Reply R × St
  unfolding keywords replied
  run_command message s = elim (api.method (get command_key message)) [
    | none ↦ (missing_command, s)
    | some f ↦ elim (keywords message) [
      | raise e ↦ (exception_text e, s)
      | ok args ↦ replied (f args s)
    ]
  ]

  -- `d["n"] = nonce`, if there is one
  unfoldable pub with_nonce : Reply R → Option V → Option (Reply R × V)
  with_nonce reply none = none
  with_nonce reply (some nonce) = some (reply, nonce)

  -- Where the message has no `get`, the handler of the exception uses a variable that is not bound yet.
  unfoldable pub response_for_message : Message V → St → Res (Option (Reply R × V)) × St
  unfolding run_command with_nonce
  response_for_message not_a_dictionary s = (raise name_error, s)
  response_for_message (dictionary message) s =
      let (reply, s') = run_command message s in (ok (with_nonce reply (get nonce_key message)), s')

  -- the next responses, after this one
  unfoldable pub then_responses :
      Option (Reply R × V)
      → Res (List (Option (Reply R × V))) × St
      → Res (List (Option (Reply R × V))) × St
  then_responses response (ok responses, s) = (ok (response ∷ responses), s)
  then_responses response (raise e, s) = (raise e, s)

  -- The loop of `api_server` over the messages: what it writes, in order.
  unfoldable pub api_server :
      (Exception → MapError) → List (Message V) → St → Res (List (Option (Reply R × V))) × St
  unfolding response_for_message then_responses
  api_server on_error [] s = (ok [], s)
  api_server on_error (m ∷ ms) s = elim (response_for_message m s).0 [
    | ok response ↦ then_responses response (api_server on_error ms (response_for_message m s).1)
    | raise e ↦ elim (on_error e) [
      | passed_on ↦ (raise e, (response_for_message m s).1)
      | stream_ended ↦ (ok [], (response_for_message m s).1)
      | item_skipped ↦ api_server on_error ms (response_for_message m s).1
    ]
  ]

  -- the nonce of a response, and whether there is a response
  abbrev pub nonce_of : Option (Reply R × V) → Option V
  nonce_of none = none
  nonce_of (some (reply, nonce)) = some nonce

  nonce_of-with_nonce : (reply : Reply R) (n : Option V) → nonce_of (with_nonce reply n) ≡ n
  unfolding with_nonce
  nonce_of-with_nonce reply none = refl
  nonce_of-with_nonce reply (some n) = refl

  returned :
      (response : Option (Reply R × V)) (t : Res (List (Option (Reply R × V))) × St)
      (responses : List (Option (Reply R × V)))
      → t.0 ≡ ok responses
      → (then_responses response t).0 ≡ ok (response ∷ responses)
  unfolding then_responses
  returned response (ok rs, s) responses e = ap (λ l. ok (response ∷ l)) (ok-injective e)
  returned response (raise b, s) responses e = cc

  -- The state after the commands of some dictionaries
  abbrev pub state_after : List (Dict (Option V)) → St → St
  state_after [] s = s
  state_after (d ∷ ds) s = state_after ds (run_command d s).1

  module _ (on_error : Exception → MapError) where
    -- To dictionaries the server gives one response each, in order, that has the nonce of its message, or
    -- is None where the message has no nonce; it does not raise, whatever the API's methods raise.
    pub api_server_lem :
        (ds : List (Dict (Option V))) (s : St)
        → (responses : List (Option (Reply R × V))) × ((api_server on_error (map dictionary ds) s).0
            ≡ ok responses)
          × (map nonce_of responses ≡ map (get nonce_key) ds)
    unfolding api_server response_for_message
    api_server_lem [] s = ([], refl, refl)
    api_server_lem (d ∷ ds) s =
        let (responses, e, same) = api_server_lem ds (run_command d s).1 in
        let response = with_nonce (run_command d s).0 (get nonce_key d) in
        (
          response ∷ responses,
          returned response (api_server on_error (map dictionary ds) (run_command d s).1) responses
              e,
          ap₂ (λ n ns. n ∷ ns) (nonce_of-with_nonce (run_command d s).0 (get nonce_key d)) same,
        )

    then-ended :
        (response : Option (Reply R × V)) (h : MapError) (s1 : St)
        (ended skipped : Res (List (Option (Reply R × V))) × St)
        → then_responses response (elim h [
          | passed_on ↦ (raise name_error, s1)
          | stream_ended ↦ ended
          | item_skipped ↦ skipped
        ])
          ≡ elim h [
            | passed_on ↦ (raise name_error, s1)
            | stream_ended ↦ then_responses response ended
            | item_skipped ↦ then_responses response skipped
          ]
    unfolding then_responses
    then-ended response passed_on s1 ended skipped = refl
    then-ended response stream_ended s1 ended skipped = refl
    then-ended response item_skipped s1 ended skipped = refl

    -- A message that is not a dictionary gets no response and changes no state, whatever came before it as
    -- dictionaries and whatever comes after it: where `map_aiter` passes exceptions on, the server raises
    -- a NameError, in the state that the dictionaries have left; where the stream ends, the server has
    -- answered the dictionaries alone; where the item is skipped, the server does what it does without the message.
    pub api_server-not_a_dictionary :
        (ds : List (Dict (Option V))) (ms : List (Message V)) (s : St)
        → api_server on_error (map dictionary ds ++ not_a_dictionary ∷ ms) s
          ≡ elim (on_error name_error) [
            | passed_on ↦ (raise name_error, state_after ds s)
            | stream_ended ↦ api_server on_error (map dictionary ds) s
            | item_skipped ↦ api_server on_error (map dictionary ds ++ ms) s
          ]
    unfolding api_server response_for_message
    api_server-not_a_dictionary [] ms s = refl
    api_server-not_a_dictionary (d ∷ ds) ms s =
        let response = with_nonce (run_command d s).0 (get nonce_key d) in
        let s' = (run_command d s).1 in
        ap (then_responses response) (api_server-not_a_dictionary ds ms s')
        ∙ then-ended response (on_error name_error) (state_after ds s')
            (api_server on_error (map dictionary ds) s')
            (api_server on_error (map dictionary ds ++ ms) s')
