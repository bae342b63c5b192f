-- ===== src/Atoms/StreamableList.antt =====
-- atoms/streamable_list.py: a list of streamable items behind its length, a `uint16`.
use ledger_sim.Prelude.{
  ℕ, zero, suc, ◌<◌, ◌≡◌, refl, List, [], ◌∷◌, ◌++◌, Bytes, arith, length, All,
}
use mathlib.Core.List.{append_assoc}
use ledger_sim.Errors.{Res, ok, ◌>>=◌}
use ledger_sim.Atoms.Codec.{Codec, RoundTrips}
use ledger_sim.Atoms.Ints.{uint16, uint, uint-RoundTrips}

module _ {T : Type 0} where
  -- `for _ in self._items: _.stream(f)`
  unfoldable pub stream_items : Codec T → List T → Res Bytes
  stream_items c [] = ok []
  stream_items c (x ∷ xs) = do s ← c.stream x; t ← stream_items c xs; ok (s ++ t)

  -- `for _ in range(count): …`
  unfoldable pub parse_items : Codec T → ℕ → Bytes → Res (List T × Bytes)
  parse_items c zero f = ok ([], f)
  parse_items c (suc count) f = do
    (x, f') ← c.parse f
    (xs, f'') ← parse_items c count f'
    ok (x ∷ xs, f'')

  unfoldable pub streamable_list : Codec T → Codec (List T)
  unfolding stream_items parse_items
  streamable_list c = record {
    stream = λ items. (do
      s ← (uint uint16).stream (length items)
      t ← stream_items c items
      ok (s ++ t));
    parse = λ f. (do (count, f') ← (uint uint16).parse f; parse_items c count f');
  }

module _ {T : Type 0} {c : Codec T} {P : T → Type 0} (r : RoundTrips c P) where
  items_blob : (xs : List T) → All P xs → Bytes
  items_blob [] h = []
  items_blob (x ∷ xs) h = r.blob x h.0 ++ items_blob xs h.1

  stream_items_lem : (xs : List T) (h : All P xs) → stream_items c xs ≡ ok (items_blob xs h)
  unfolding stream_items items_blob
  stream_items_lem [] h = refl
  stream_items_lem (x ∷ xs) h = rw (r.streams x h.0, stream_items_lem xs h.1)

  parse_items_lem :
      (xs : List T) (h : All P xs) (rest : Bytes)
      → parse_items c (length xs) (items_blob xs h ++ rest) ≡ ok (xs, rest)
  unfolding parse_items items_blob
  parse_items_lem [] h rest = refl
  parse_items_lem (x ∷ xs) h rest =
      rw (append_assoc, r.parses x h.0 (items_blob xs h.1 ++ rest), parse_items_lem xs h.1 rest)

-- The lists of at most 65535 items.
abbrev pub Fits : {T : Type 0} → (T → Type 0) → List T → Type 0
Fits P xs = (length xs < 65536) × All P xs

count-RoundTrips : RoundTrips (uint uint16) (λ n. n < 65536)
count-RoundTrips = uint-RoundTrips 2 (omega arith)

module _ {T : Type 0} {c : Codec T} {P : T → Type 0} (r : RoundTrips c P) where
  -- If the items are parsed back, whatever follows them, so is a list of up to 65535 of them.
  pub streamable_list-RoundTrips : RoundTrips (streamable_list c) (Fits P)
  unfolding streamable_list
  streamable_list-RoundTrips = record {
    blob = λ xs h. count-RoundTrips.blob (length xs) h.0 ++ items_blob r xs h.1;
    streams = λ xs h. rw (count-RoundTrips.streams (length xs) h.0, stream_items_lem r xs h.1);
    parses = λ xs h rest. rw (
      append_assoc,
      count-RoundTrips.parses (length xs) h.0 (items_blob r xs h.1 ++ rest),
      parse_items_lem r xs h.1 rest,
    );
  }
