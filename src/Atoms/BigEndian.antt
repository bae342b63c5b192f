-- ===== src/Atoms/BigEndian.antt =====
-- Big-endian numbers, as `struct` and `int.to_bytes(n, "big")` write them.
use native.Mathlib.Nat.{pow-suc}
use ledger_sim.Prelude.{
  ℕ, zero, suc, ◌+◌, ◌*◌, ◌/◌, ◌%◌, ◌^◌, ◌<◌, ◌≡◌, refl, [], ◌∷◌, ◌++◌, Bytes, arith, length,
  length-append,
}

-- The last `width` digits of `n` to the base 256, the highest first.
unfoldable pub big_endian : ℕ → ℕ → Bytes
big_endian zero n = []
big_endian (suc width) n = big_endian width (n / 256) ++ (n % 256) ∷ []

unfoldable pub from_digits : ℕ → Bytes → ℕ
from_digits acc [] = acc
from_digits acc (b ∷ bs) = from_digits (acc * 256 + b) bs

unfoldable pub from_big_endian : Bytes → ℕ
unfolding from_digits
from_big_endian = from_digits 0

pub length-big_endian : (width n : ℕ) → length (big_endian width n) ≡ width
unfolding big_endian
length-big_endian zero n = refl
length-big_endian (suc width) n = omega (
  arith,
  length-append (big_endian width (n / 256)) ((n % 256) ∷ []),
  length-big_endian width (n / 256),
)

from_digits-append :
    (acc : ℕ) (bs : Bytes) (b : ℕ) → from_digits acc (bs ++ b ∷ []) ≡ from_digits acc bs * 256 + b
unfolding from_digits
from_digits-append acc [] b = refl
from_digits-append acc (c ∷ bs) b = from_digits-append (acc * 256 + c) bs b

pub from_big_endian-big_endian :
    (width n : ℕ) → n < 256 ^ width → from_big_endian (big_endian width n) ≡ n
unfolding from_big_endian big_endian
from_big_endian-big_endian zero n h = omega arith
from_big_endian-big_endian (suc width) n h =
    rw from_digits-append
      (omega (arith, from_big_endian-big_endian width (n / 256) (omega (arith, pow-suc 256 width))))
