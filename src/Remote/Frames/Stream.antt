-- ===== src/Remote/Frames/Stream.antt =====
-- What a reader gets of the messages that were written to it.
use ledger_sim.Prelude.{
  ℕ, zero, suc, ◌+◌, ◌^◌, ◌≤◌, ◌<◌, ◌≡◌, refl, sym, ap, ◌∙◌, Bool, true, false, Option, none, some,
  List, [], ◌∷◌, ◌++◌, Bytes, length, length-append, length-drop, take, drop, take-append,
  drop-append, leb, ltb, if◌then◌else◌, arith, inl, inr, Option-cases, some_inj,
}
use mathlib.Core.List.{append_assoc}
use ledger_sim.Prelude.Int.{pos}
use ledger_sim.Errors.{Res, ok, raise, Res-cases, struct_error, map_res, >>=-eq-ok, ok-injective}
use ledger_sim.Atoms.BigEndian.{
  big_endian, from_big_endian, length-big_endian, from_big_endian-big_endian,
}
use ledger_sim.Atoms.Ints.{pack, uint32}
use ledger_sim.Remote.Streamable.{Value, Plain, transform_to_streamable}
use ledger_sim.Remote.Frames.{
  read_exactly, read_frame, xform_to_cbor_message, write_all, reader_to_cbor_stream,
}

read_exactly-append :
    (b more : Bytes) (n : ℕ) → length b ≡ n → read_exactly n (b ++ more) ≡ some (b, more)
unfolding read_exactly
read_exactly-append b more n e =
    rw (take-append b more n e, drop-append b more n e)
      (fits (length (b ++ more)) (omega (arith, length-append b more)))
  where
    fits :
        (m : ℕ)
        → n ≤ m
        → if◌then◌else◌ {A = Option (Bytes × Bytes)} (leb n m) (some (b, more)) none
          ≡ some (b, more)
    fits m h = ground arith

-- What is too short is not read.
read_exactly-short : (b : Bytes) (n : ℕ) → length b < n → read_exactly n b ≡ none
unfolding read_exactly
read_exactly-short b n h = ground arith

read_frame-short : (b : Bytes) → length b < 4 → read_frame b ≡ none
unfolding read_frame
read_frame-short b h = rw (read_exactly-short b 4 h, read_frame) refl

-- What was read and what is left are as long as what there was.
length-read_exactly :
    (n : ℕ) (b got more : Bytes) → read_exactly n b ≡ some (got, more) → length more + n ≡ length b
unfolding read_exactly
length-read_exactly n b got more e =
    let (fits, rest) = go (leb n (length b)) refl e in
    ap (λ t. length t + n) (sym rest) ∙ omega (arith, length-drop n b, fits)
  where
    go :
        (c : Bool)
        → leb n (length b) ≡ c
        → if◌then◌else◌ {A = Option (Bytes × Bytes)} c (some (take n b, drop n b)) none
          ≡ some (got, more)
        → (n ≤ length b) × (drop n b ≡ more)
    go true h k = (ground arith, ap (λ (t : Bytes × Bytes). t.1) (some_inj k))
    go false h k = absurd (no k)
      where
        no : {A : Type 0} {a : A} → none ≡ some a → ⊥
        no k = cc

length-read_frame :
    (b blob more : Bytes) → read_frame b ≡ some (blob, more) → length more < length b
unfolding read_frame
length-read_frame b blob more e = elim (Option-cases (read_exactly 4 b)) [
  | inl short ↦ absurd (nothing (sym (cut_off short) ∙ e))
  | inr ((size, rest), found) ↦ omega (
    arith,
    length-read_exactly 4 b size rest found,
    length-read_exactly (from_big_endian size) rest blob more
        (sym (found_size size rest found) ∙ e),
  )
]
  where
    nothing : {A : Type 0} {a : A} → none ≡ some a → ⊥
    nothing k = cc

    cut_off : read_exactly 4 b ≡ none → read_frame b ≡ none
    cut_off short = rw (short, read_frame) refl

    found_size :
        (size rest : Bytes)
        → read_exactly 4 b ≡ some (size, rest)
        → read_frame b ≡ read_exactly (from_big_endian size) rest
    found_size size rest found = rw (found, read_frame) refl

-- the size that was written
size_lem :
    (n : ℕ) (size : Bytes)
    → pack uint32 (pos n) ≡ ok size
    → (length size ≡ 4) × (from_big_endian size ≡ n)
unfolding pack
size_lem n size e =
    let (w, e1, k) =
      >>=-eq-ok {A = ℕ} (if ltb n (256 ^ 4) then ok n else raise struct_error)
        (λ v. ok (big_endian 4 v)) e in
    let (same, small) = in_range (256 ^ 4) w e1 in
    let written : big_endian 4 n ≡ size = ap (big_endian 4) same ∙ ok-injective k in
    (
      ap length (sym written) ∙ length-big_endian 4 n,
      ap from_big_endian (sym written) ∙ from_big_endian-big_endian 4 n small,
    )
  where
    in_range : (m w : ℕ) → (if ltb n m then ok n else raise struct_error) ≡ ok w → (n ≡ w) × (n < m)
    in_range m w h = (ground arith, ground arith)

module _ (dumps : Plain → Res Bytes) (loads : Bytes → Res Plain) where
  -- What was written is loaded as it was.
  abbrev pub LoadsBack : Type 0
  LoadsBack = (p : Plain) (blob : Bytes) → dumps p ≡ ok blob → loads blob ≡ ok p

  read_frame-written :
      (v : Value) (b more : Bytes)
      → xform_to_cbor_message dumps loads v ≡ ok b
      → (p : Plain) × (blob : Bytes) × (transform_to_streamable v ≡ ok p)
        × (dumps p ≡ ok blob)
        × (read_frame (b ++ more) ≡ some (blob, more))
  unfolding xform_to_cbor_message read_frame
  read_frame-written v b more e =
      let (p, e1, k1) = >>=-eq-ok (transform_to_streamable v) _ e in
      let (blob, e2, k2) = >>=-eq-ok (dumps p) _ k1 in
      let (size, e3, k3) = >>=-eq-ok (pack uint32 (pos (length blob))) _ k2 in
      let (four, same) = size_lem (length blob) size e3 in
      let split : b ++ more ≡ size ++ (blob ++ more) =
        ap (λ t. t ++ more) (sym (ok-injective k3)) ∙ append_assoc size blob more in
      (
        p,
        blob,
        e1,
        e2,
        rw (split, read_exactly-append size (blob ++ more) 4 four, read_frame)
            (read_exactly-append blob more (from_big_endian size) (sym same)),
      )

  -- Where what cbor dumps is loaded back, a reader gets the messages that were written, in order and made
  -- streamable, and what comes of a message that was cut off in its first bytes is left out, with fuel for one
  -- message more than these.
  pub reader_to_cbor_stream-write_all :
      LoadsBack
      → (vs : List Value) (b tail : Bytes) (fuel : ℕ) → write_all dumps loads vs ≡ ok b
      → length tail < 4
      → length vs < fuel
      → (ps : List Plain) × (map_res transform_to_streamable vs ≡ ok ps)
        × (reader_to_cbor_stream dumps loads fuel (b ++ tail) ≡ some ps)
  unfolding reader_to_cbor_stream write_all
  reader_to_cbor_stream-write_all back vs b tail zero e cut f = absurd (omega arith)
  reader_to_cbor_stream-write_all back [] b tail (suc fuel) e cut f =
      ([], refl, rw (← ok-injective e, read_frame-short tail cut, reader_to_cbor_stream) refl)
  reader_to_cbor_stream-write_all back (v ∷ vs) b tail (suc fuel) e cut f =
      let (first, e1, k1) = >>=-eq-ok (xform_to_cbor_message dumps loads v) _ e in
      let (rest, e2, k2) = >>=-eq-ok (write_all dumps loads vs) _ k1 in
      let (p, blob, plain, dumped, frame) = read_frame-written v first (rest ++ tail) e1 in
      let (ps, plains, later) =
        reader_to_cbor_stream-write_all back vs rest tail fuel e2 cut (omega arith) in
      let split : b ++ tail ≡ first ++ (rest ++ tail) =
        ap (λ t. t ++ tail) (sym (ok-injective k2)) ∙ append_assoc first rest tail in
      (
        p ∷ ps,
        rw (plain, plains) refl,
        rw (split, frame, back p blob dumped, later, reader_to_cbor_stream) refl,
      )

  -- The reader comes to an end of every stream: with fuel for more messages than the stream has bytes,
  -- it does not run out.
  pub reader_to_cbor_stream_ends :
      (fuel : ℕ) (b : Bytes)
      → length b < fuel
      → (ps : List Plain) × (reader_to_cbor_stream dumps loads fuel b ≡ some ps)
  unfolding reader_to_cbor_stream
  reader_to_cbor_stream_ends zero b f = absurd (omega arith)
  reader_to_cbor_stream_ends (suc fuel) b f = elim (Option-cases (read_frame b)) [
    | inl e ↦ ([], rw (e, reader_to_cbor_stream) refl)
    | inr ((blob, more), e) ↦ elim (Res-cases (loads blob)) [
      | inl (x, raised) ↦ ([], rw (e, raised, reader_to_cbor_stream) refl)
      | inr (p, loaded) ↦
          let (ps, later) =
            reader_to_cbor_stream_ends fuel more (omega (arith, length-read_frame b blob more e)) in
          (p ∷ ps, rw (e, loaded, later, reader_to_cbor_stream) refl)
    ]
  ]
