-- ===== src/Atoms/Codec.antt =====
-- atoms/streamable.py and atoms/bin_methods.py: a type that streams and parses itself, and how a
-- class made by `@streamable` does both field by field.
use ledger_sim.Prelude.{◌≡◌, [], ◌++◌, Bytes}
use ledger_sim.Errors.{Res, ok, ◌>>=◌}
use mathlib.Core.List.{append_assoc, append-nil}

-- `stream(f)` appends what it returns to `f`; `parse(f)` also returns what it left of `f`.
pub record Codec (T : Type 0) : Type 0 where
  pub stream : T → Res Bytes
  pub parse : Bytes → Res (T × Bytes)

-- `_local.stream` and `_local.parse`, for one more field in front of the others
unfoldable pub field : {A B : Type 0} → Codec A → Codec B → Codec (A × B)
field a b = record {
  stream = λ (x, y). (do s ← a.stream x; t ← b.stream y; ok (s ++ t));
  parse = λ f. (do (x, f') ← a.parse f; (y, f'') ← b.parse f'; ok ((x, y), f''));
}

-- `cls(*values)` of the parsed fields, and the fields of an object
unfoldable pub streamable : {A T : Type 0} → (A → T) → (T → A) → Codec A → Codec T
streamable build fields a = record {
  stream = λ t. a.stream (fields t);
  parse = λ f. (do (v, f') ← a.parse f; ok (build v, f'));
}

-- `from_bytes`: what `parse` leaves of the blob is ignored.
unfoldable pub from_bytes : {T : Type 0} → Codec T → Bytes → Res T
from_bytes c blob = do (v, rest) ← c.parse blob; ok v

-- The values with `P` stream, and are parsed back, whatever follows them.
pub record RoundTrips {T : Type 0} (c : Codec T) (P : T → Type 0) : Type 0 where
  pub blob : (v : T) → P v → Bytes
  pub streams : (v : T) (p : P v) → c.stream v ≡ ok (blob v p)
  pub parses : (v : T) (p : P v) (rest : Bytes) → c.parse (blob v p ++ rest) ≡ ok (v, rest)

module _ {A B : Type 0} {a : Codec A} {b : Codec B} {P : A → Type 0} {Q : B → Type 0} where
  pub field-RoundTrips :
      RoundTrips a P → RoundTrips b Q → RoundTrips (field a b) (λ v. P v.0 × Q v.1)
  unfolding field
  field-RoundTrips ra rb = record {
    blob = λ v p. ra.blob v.0 p.0 ++ rb.blob v.1 p.1;
    streams = λ v p. rw (ra.streams v.0 p.0, rb.streams v.1 p.1);
    parses = λ v p rest.
        rw (append_assoc, ra.parses v.0 p.0 (rb.blob v.1 p.1 ++ rest), rb.parses v.1 p.1 rest);
  }

module _ {A T : Type 0} {a : Codec A} {P : A → Type 0} (build : A → T) (fields : T → A) where
  pub streamable-RoundTrips :
      ((t : T) → build (fields t) ≡ t)
      → RoundTrips a P
      → RoundTrips (streamable build fields a) (λ t. P (fields t))
  unfolding streamable
  streamable-RoundTrips inverse r = record {
    blob = λ t p. r.blob (fields t) p;
    streams = λ t p. r.streams (fields t) p;
    parses = λ t p rest. rw (r.parses (fields t) p rest, inverse t);
  }

-- `cls.from_bytes(bytes(v)) == v`
pub from_bytes-stream :
    {T : Type 0} {c : Codec T} {P : T → Type 0} (r : RoundTrips c P) (v : T)
    → P v
    → (c.stream v >>= from_bytes c) ≡ ok v
unfolding from_bytes
from_bytes-stream {c} r v p =
    rw (r.streams v p) (rw (← append-nil (r.blob v p)) (rw (r.parses v p [])))

pub RoundTrips-mono :
    {T : Type 0} {c : Codec T} {P Q : T → Type 0}
    → ((v : T) → Q v → P v)
    → RoundTrips c P
    → RoundTrips c Q
RoundTrips-mono weaker r = record {
  blob = λ v q. r.blob v (weaker v q);
  streams = λ v q. r.streams v (weaker v q);
  parses = λ v q rest. r.parses v (weaker v q) rest;
}
