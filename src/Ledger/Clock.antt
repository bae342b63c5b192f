-- ===== src/Ledger/Clock.antt =====
-- The timestamp of a block, `uint64(self._now / 1000)` in `new_chain_view` of ledger/ledger_api.py. Python's `/`
-- gives a float: the quotient, rounded to 53 significant bits, a tie to the even one. `uint64` then drops
-- what stands after the point.
pub mod Exact
use ledger_sim.Prelude.{
  ℕ, zero, suc, ◌+◌, ◌-◌, ◌*◌, ◌/◌, ◌%◌, ◌^◌, true, false, ◌&&◌, ◌||◌, ◌<◌, ◌≤◌, ◌≡◌, refl, arith,
  ltb, leb, ◌==◌, if◌then◌else◌, Bool-cases, inl, inr,
}
use ledger_sim.Errors.{Res, ok, raise_if, overflow_error, ◌>>◌}

-- the bits of a number; fuel of the number itself is enough, since each round halves it
unfoldable pub bits : ℕ → ℕ → ℕ
bits zero n = 0
bits (suc fuel) n = elim (n == 0) [ true ↦ 0 | false ↦ suc (bits fuel (n / 2)) ]

-- a / b, rounded to the next whole number, and to the even one of two that are as near
unfoldable pub round_half_even : ℕ → ℕ → ℕ
round_half_even a b =
    if ltb b (2 * (a % b)) || (2 * (a % b) == b) && (a / b % 2 == 1) then a / b + 1 else a / b

-- `int(ms / 1000)`, as if floats had no largest one: of a quotient whose whole part has k bits, 53 - k bits
-- after the point are kept; where k is more than 53, the last k - 53 bits of the whole part are zero.
unfoldable pub whole_seconds : ℕ → ℕ
unfolding bits round_half_even
whole_seconds ms =
    let k = bits (ms / 1000) (ms / 1000) in
    if leb k 53
    then round_half_even (ms * 2 ^ (53 - k)) 1000 / 2 ^ (53 - k)
    else round_half_even ms (1000 * 2 ^ (k - 53)) * 2 ^ (k - 53)

-- Python raises an OverflowError where the quotient is too large for a float.
unfoldable pub timestamp_of : ℕ → Res ℕ
timestamp_of ms =
    raise_if (leb (2 ^ 1024) (whole_seconds ms)) overflow_error >> ok (whole_seconds ms)

-- Seconds that fit in 64 bits are far from the largest float.
pub timestamp_of_lem :
    (ms : ℕ) → whole_seconds ms < 256 ^ 8 → timestamp_of ms ≡ ok (whole_seconds ms)
unfolding timestamp_of
timestamp_of_lem ms small = rw (in_range (whole_seconds ms) small) refl
  where
    in_range : (n : ℕ) → n < 256 ^ 8 → leb (2 ^ 1024) n ≡ false
    in_range n h = ground arith

-- The fuel is enough: a number lies below the power of two that its bits name, and not below the one before.
pub bits_lem : (fuel n : ℕ) → n ≤ fuel → (n < 2 ^ bits fuel n) × (2 ^ bits fuel n ≤ 2 * n + (1 - n))
unfolding bits
bits_lem zero n h = (omega (arith, h), omega (arith, h))
bits_lem (suc fuel) n h = elim (Bool-cases (n == 0)) [
  | inl nothing ↦ rw (nothing, bits) (zero_below n nothing, omega arith)
  | inr some_bits ↦
      let positive : 1 ≤ n = not_zero n some_bits in
      let (below, above) = bits_lem fuel (n / 2) (omega (arith, positive, h)) in
      rw (some_bits, bits) (omega (arith, below, positive), omega (arith, above, positive))
]
  where
    zero_below : (n : ℕ) → (n == 0) ≡ true → n < 1
    zero_below n e = ground arith

    not_zero : (n : ℕ) → (n == 0) ≡ false → 1 ≤ n
    not_zero n e = ground arith
