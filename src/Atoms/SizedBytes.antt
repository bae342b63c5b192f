-- ===== src/Atoms/SizedBytes.antt =====
-- atoms/byte_types.py and hashable/sized_bytes.py: bytes of a fixed size.
use ledger_sim.Prelude.{
  ℕ, ◌≡◌, refl, Bytes, ◌==◌, not, length, take, drop, take-append, drop-append, ==_iff, true,
}
use ledger_sim.Errors.{Res, ok, value_error, assert, raise_if, ◌>>=◌, ◌>>◌}
use ledger_sim.Atoms.Codec.{Codec, RoundTrips}

-- `__new__`, of something that is bytes already
unfoldable pub sized : ℕ → Bytes → Res Bytes
sized size v = do raise_if (not (length v == size)) value_error; ok v

-- `parse` and `stream` of `make_sized_bytes(size)`
unfoldable pub sized_bytes : ℕ → Codec Bytes
unfolding sized
sized_bytes size = record {
  stream = λ v. ok v;
  parse = λ f. (do
    let b = take size f
    assert (length b == size)
    v ← sized size b
    ok (v, drop size f));
}

abbrev pub bytes32 : Codec Bytes
bytes32 = sized_bytes 32

abbrev pub bytes48 : Codec Bytes
bytes48 = sized_bytes 48

abbrev pub bytes96 : Codec Bytes
bytes96 = sized_bytes 96

pub ==_refl : (n : ℕ) → (n == n) ≡ true
==_refl n = (==_iff n n).1 refl

pub sized_lem : (n : ℕ) (v : Bytes) → length v ≡ n → sized n v ≡ ok v
unfolding sized
sized_lem n v h = rw (h, ==_refl n)

pub sized_bytes-RoundTrips : (n : ℕ) → RoundTrips (sized_bytes n) (λ v. length v ≡ n)
unfolding sized_bytes sized
sized_bytes-RoundTrips n = record {
  blob = λ v h. v;
  streams = λ v h. refl;
  parses = λ v h rest. rw (take-append v rest n h, drop-append v rest n h, h, ==_refl n);
}
