-- ===== src/Ledger/Clock/Exact.antt =====
-- The timestamp of ledger/ledger_api.py where the float loses nothing that counts.
use ledger_sim.Prelude.{
  ℕ, ◌+◌, ◌-◌, ◌*◌, ◌/◌, ◌^◌, ◌<◌, ◌≤◌, ◌≡◌, true, leb, Bool-cases, inl, inr, ◌⊎◌, arith,
}
use native.Mathlib.Nat.{mul-le-mul_right, pow-le-pow_right, div-eq_of_lt-le}
use ledger_sim.Ledger.Clock.{bits, round_half_even, whole_seconds, bits_lem}

few_bits : (k : ℕ) → 2 ^ k < 2 ^ 45 → k ≤ 44
few_bits k h = elim (leb-cases 45 k) [
  | inl many ↦ absurd (omega (arith, h, pow-le-pow_right {n = 2} (omega arith) many))
  | inr few ↦ omega (arith, few)
]
  where
    leb-cases : (m k : ℕ) → (m ≤ k) ⊎ (k < m)
    leb-cases m k = elim (Bool-cases (leb m k)) [
      | inl e ↦ inl (ground arith)
      | inr e ↦ inr (ground arith)
    ]

-- What is rounded is off by half at most.
rounded :
    (a : ℕ) → (a ≤ round_half_even a 1000 * 1000 + 500) × (round_half_even a 1000 * 1000 ≤ a + 500)
unfolding round_half_even
rounded a = ground arith

-- At 512 steps to the second, the last millisecond of a second is not rounded up to the next one.
same_second : (ms p : ℕ) → 512 ≤ p → round_half_even (ms * p) 1000 / p ≡ ms / 1000
same_second ms p fine =
    let (low, high) = rounded (ms * p) in
    div-eq_of_lt-le p
      (lower (ms / 1000) ms p (round_half_even (ms * p) 1000) (seconds_below ms) low)
      (upper (ms / 1000) ms p (round_half_even (ms * p) 1000) fine (seconds_above ms) high)
  where
    seconds_below : (ms : ℕ) → ms / 1000 * 1000 ≤ ms
    seconds_below ms = omega arith

    seconds_above : (ms : ℕ) → ms ≤ ms / 1000 * 1000 + 999
    seconds_above ms = omega arith

    lower : (q ms p m : ℕ) → q * 1000 ≤ ms → ms * p ≤ m * 1000 + 500 → q * p ≤ m
    lower q ms p m below near = omega (arith, mul-le-mul_right p below, shuffle q p, near)
      where
        shuffle : (q p : ℕ) → q * 1000 * p ≡ 1000 * (q * p)
        shuffle q p = grind arith

    upper :
        (q ms p m : ℕ) → 512 ≤ p → ms ≤ q * 1000 + 999 → m * 1000 ≤ ms * p + 500 → m < (q + 1) * p
    upper q ms p m fine above near =
        omega (arith, mul-le-mul_right p above, shuffle q p, next q p, fine, near)
      where
        shuffle : (q p : ℕ) → (q * 1000 + 999) * p ≡ 1000 * (q * p) + 999 * p
        shuffle q p = grind arith

        next : (q p : ℕ) → (q + 1) * p ≡ q * p + p
        next q p = grind arith

-- Below 2 ** 44 seconds, the timestamp is the clock's whole seconds.
pub whole_seconds_lem : (ms : ℕ) → ms / 1000 < 2 ^ 44 → whole_seconds ms ≡ ms / 1000
unfolding whole_seconds
whole_seconds_lem ms small =
    let q = ms / 1000 in
    let k = bits q q in
    let few : k ≤ 44 = few_bits k (below q (2 ^ k) small (bits_lem q q (omega arith)).1) in
    rw (fits k few)
      (same_second ms (2 ^ (53 - k)) (pow-le-pow_right {n = 2} (omega arith) (nine k few)))
  where
    below : (q w : ℕ) → q < 2 ^ 44 → w ≤ 2 * q + (1 - q) → w < 2 ^ 45
    below q w small h = omega (arith, small, h)

    fits : (k : ℕ) → k ≤ 44 → leb k 53 ≡ true
    fits k few = ground arith

    nine : (k : ℕ) → k ≤ 44 → 9 ≤ 53 - k
    nine k few = omega (arith, few)
