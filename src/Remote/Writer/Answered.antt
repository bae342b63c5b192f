-- ===== src/Remote/Writer/Answered.antt =====
-- What a reader gets of the responses that a server writes.
use ledger_sim.Prelude.{
  ℕ, suc, ◌<◌, ◌^◌, ◌≡◌, refl, List, [], ◌∷◌, ◌++◌, Bytes, length, map, some, arith, length-map,
  ltb, true,
}
use mathlib.Core.Path.{subst}
use mathlib.Core.List.{append-nil}
use ledger_sim.Errors.{Res, ok, raise, Exception, map_res}
use ledger_sim.Atoms.Ints.{pack}
use ledger_sim.Remote.Streamable.{Value, text, Plain, plain_text, transform_to_streamable}
use ledger_sim.Remote.Frames.{xform_to_cbor_message, write_all, reader_to_cbor_stream}
use ledger_sim.Remote.Frames.Stream.{LoadsBack, reader_to_cbor_stream-write_all}
use ledger_sim.Remote.Server.{MapError}
use ledger_sim.Remote.Writer.{to_cbor, write_responses}

module _ (dumps : Plain → Res Bytes) (loads : Bytes → Res Plain) (problem : Exception → Bytes) where
  -- cbor writes the text of a problem, in less than 2 ** 32 bytes.
  pub record TextsDump : Type 0 where
    pub dumped : (e : Exception) → Bytes
    pub dumps_text : (e : Exception) → dumps (plain_text (problem e)) ≡ ok (dumped e)
    pub small : (e : Exception) → length (dumped e) < 256 ^ 4

  -- the message that a response becomes
  abbrev pub sent_value : Res Bytes → Value → Value
  sent_value (ok msg) v = v
  sent_value (raise e) v = text (problem e)

  abbrev pub sent : Value → Value
  sent v = sent_value (xform_to_cbor_message dumps loads v) v

  problem_written :
      TextsDump
      → (e : Exception)
      → (msg : Bytes) × (xform_to_cbor_message dumps loads (text (problem e)) ≡ ok msg)
  unfolding xform_to_cbor_message transform_to_streamable pack
  problem_written t e = rw (t.dumps_text e, ltb_lem (length (t.dumped e)) (t.small e)) (_, refl)
    where
      ltb_lem : (n : ℕ) → n < 256 ^ 4 → ltb n (256 ^ 4) ≡ true
      ltb_lem n h = ground arith

  to_cbor_lem :
      TextsDump
      → (v : Value) (r : Res Bytes) → xform_to_cbor_message dumps loads v ≡ r
      → (msg : Bytes) × (to_cbor dumps loads problem v ≡ ok msg)
        × (xform_to_cbor_message dumps loads (sent_value r v) ≡ ok msg)
  unfolding to_cbor
  to_cbor_lem t v (ok msg) e = (msg, rw (e, to_cbor) refl, e)
  to_cbor_lem t v (raise ex) e =
      let (msg, written) = problem_written t ex in (msg, rw (e, to_cbor) written, written)

  module _ (on_error : Exception → MapError) where
    -- The server writes every response.
    write_responses-returns :
        TextsDump
        → (vs : List Value)
        → (b : Bytes) × (write_responses dumps loads problem on_error vs ≡ ok b)
          × (write_all dumps loads (map sent vs) ≡ ok b)
    unfolding write_responses write_all
    write_responses-returns t [] = ([], refl, refl)
    write_responses-returns t (v ∷ vs) =
        let (msg, e, e') = to_cbor_lem t v (xform_to_cbor_message dumps loads v) refl in
        let (rest, f, f') = write_responses-returns t vs in
        (msg ++ rest, rw (e, write_responses, f) refl, rw (e', f') refl)

    -- Where what cbor dumps is loaded back, and the text of a problem can be written: whatever responses a
    -- server writes to a client, it does not raise, and the client reads one message for each, in order, which is
    -- the plain value of the response, or the text of the problem where the response cannot be written. Fuel for
    -- one message more than the responses is enough.
    pub reader_to_cbor_stream-write_responses :
        LoadsBack dumps loads
        → TextsDump
        → (vs : List Value)
        → (b : Bytes) × (ps : List Plain) × (write_responses dumps loads problem on_error vs ≡ ok b)
          × (map_res transform_to_streamable (map sent vs) ≡ ok ps)
          × (reader_to_cbor_stream dumps loads (suc (length vs)) b ≡ some ps)
    reader_to_cbor_stream-write_responses back t vs =
        let (b, written, all) = write_responses-returns t vs in
        let (ps, plain, read) =
          reader_to_cbor_stream-write_all dumps loads back (map sent vs) b [] (suc (length vs)) all
            (omega arith) (omega (arith, length-map sent vs)) in
        (
          b,
          ps,
          written,
          plain,
          subst (λ c. reader_to_cbor_stream dumps loads (suc (length vs)) c ≡ some ps)
              (append-nil b) read,
        )
