-- ===== src/Atoms/Ints.antt =====
-- atoms/ints.py and atoms/struct_stream.py: integers that stream themselves in a `struct` format.
use native.Mathlib.Nat.{pow-suc, one-le-pow}
use ledger_sim.Prelude.{
  ℕ, zero, suc, ◌+◌, ◌-◌, ◌/◌, ◌^◌, ◌<◌, ◌≡◌, refl, ap, Bool, true, false, not, Bytes, arith,
  length, take, drop, take-append, drop-append, ltb, ◌==◌, if◌then◌else◌,
}
use ledger_sim.Prelude.Int.{ℤ, pos, negsuc, pos_part}
use ledger_sim.Errors.{Res, ok, raise, struct_error, raise_if, ◌>>=◌, ◌>>◌}
use ledger_sim.Atoms.Codec.{Codec, RoundTrips, streamable, streamable-RoundTrips, RoundTrips-mono}
use ledger_sim.Atoms.SizedBytes.{==_refl}
use ledger_sim.Atoms.BigEndian.{
  big_endian, from_big_endian, length-big_endian, from_big_endian-big_endian,
}

-- A format `!b`, `!B`, `!h` and so on: the bytes that it takes, and whether it has a sign.
pub record Pack : Type 0 where
  pub width : ℕ
  pub signed : Bool

abbrev pub int8 : Pack
int8 = record { width = 1; signed = true }

abbrev pub uint8 : Pack
uint8 = record { width = 1; signed = false }

abbrev pub int16 : Pack
int16 = record { width = 2; signed = true }

abbrev pub uint16 : Pack
uint16 = record { width = 2; signed = false }

abbrev pub int32 : Pack
int32 = record { width = 4; signed = true }

abbrev pub uint32 : Pack
uint32 = record { width = 4; signed = false }

abbrev pub int64 : Pack
int64 = record { width = 8; signed = true }

abbrev pub uint64 : Pack
uint64 = record { width = 8; signed = false }

-- The word that stands for an integer, if the integer is in the range of the format; `m` is
-- `256 ^ width`, and a negative number is written as its two's complement.
abbrev word : ℕ → Bool → ℤ → Res ℕ
word m true (pos n) = if ltb n (m / 2) then ok n else raise struct_error
word m true (negsuc n) = if ltb n (m / 2) then ok (m - n - 1) else raise struct_error
word m false (pos n) = if ltb n m then ok n else raise struct_error
word m false (negsuc n) = raise struct_error

abbrev of_word : ℕ → Bool → ℕ → ℤ
of_word m true n = if ltb n (m / 2) then pos n else negsuc (m - n - 1)
of_word m false n = pos n

-- `struct.pack(PACK, v)`
unfoldable pub pack : Pack → ℤ → Res Bytes
pack p v = do n ← word (256 ^ p.width) p.signed v; ok (big_endian p.width n)

-- `struct.unpack(PACK, b)`
unfoldable pub unpack : Pack → Bytes → Res ℤ
unpack p b = do
  raise_if (not (length b == p.width)) struct_error
  ok (of_word (256 ^ p.width) p.signed (from_big_endian b))

-- `struct_stream`
unfoldable pub struct_stream : Pack → Codec ℤ
unfolding pack unpack
struct_stream p = record {
  stream = pack p;
  parse = λ f. (do v ← unpack p (take p.width f); ok (v, drop p.width f));
}

-- The integers of the format.
abbrev pub InRange : Pack → ℤ → Type 0
InRange p v = (n : ℕ) × (word (256 ^ p.width) p.signed v ≡ ok n)

word-lt : (m : ℕ) (s : Bool) (v : ℤ) (n : ℕ) → 0 < m → word m s v ≡ ok n → n < m
word-lt m true (pos k) n hm h = ground arith
word-lt m true (negsuc k) n hm h = ground arith
word-lt m false (pos k) n hm h = ground arith
word-lt m false (negsuc k) n hm h = cc

-- `m` is even, so that the two halves of the words are of one size.
of_word-word :
    (m : ℕ) (s : Bool) (v : ℤ) (n : ℕ) → m ≡ m / 2 + m / 2 → word m s v ≡ ok n → of_word m s n ≡ v
of_word-word m true (pos k) n even e = ground arith
of_word-word m true (negsuc k) n even e = ground arith
of_word-word m false (pos k) n even e = ground arith
of_word-word m false (negsuc k) n even e = cc

even_pow : (w : ℕ) → 0 < w → 256 ^ w ≡ 256 ^ w / 2 + 256 ^ w / 2
even_pow zero h = absurd (omega arith)
even_pow (suc w) h = omega (arith, pow-suc 256 w)

module _ (p : Pack) (sized : 0 < p.width) where
  unpack-pack :
      (v : ℤ) (n : ℕ)
      → word (256 ^ p.width) p.signed v ≡ ok n
      → unpack p (big_endian p.width n) ≡ ok v
  unfolding unpack
  unpack-pack v n e =
      rw
        (
          length-big_endian p.width n,
          ==_refl p.width,
          from_big_endian-big_endian p.width n
              (word-lt (256 ^ p.width) p.signed v n (one-le-pow p.width 256 (omega arith)) e),
        )
        (ap ok (of_word-word (256 ^ p.width) p.signed v n (even_pow p.width sized) e))

  -- Every integer in the range of a format of at least one byte is parsed back, whatever follows it.
  pub struct_stream-RoundTrips : RoundTrips (struct_stream p) (InRange p)
  unfolding struct_stream pack
  struct_stream-RoundTrips = record {
    blob = λ v r. big_endian p.width r.0;
    streams = λ v r. rw r.1;
    parses = λ v r rest. rw (
      take-append (big_endian p.width r.0) rest p.width (length-big_endian p.width r.0),
      drop-append (big_endian p.width r.0) rest p.width (length-big_endian p.width r.0),
      unpack-pack v r.0 r.1,
    );
  }

-- A field of an unsigned type, read as a natural number.
unfoldable pub uint : Pack → Codec ℕ
unfolding streamable
uint p = streamable pos_part pos (struct_stream p)

unsigned_in_range : (m n : ℕ) → n < m → word m false (pos n) ≡ ok n
unsigned_in_range m n h = ground arith

pub uint-RoundTrips :
    (w : ℕ) → 0 < w → RoundTrips (uint (record { width = w; signed = false })) (λ n. n < 256 ^ w)
unfolding uint
uint-RoundTrips w sized =
    RoundTrips-mono (λ n h. (n, unsigned_in_range (256 ^ w) n h))
      (streamable-RoundTrips pos_part pos (λ n. refl)
        (struct_stream-RoundTrips (record { width = w; signed = false }) sized))
