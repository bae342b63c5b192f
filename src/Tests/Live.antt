-- ===== src/Tests/Live.antt =====
-- A ledger with no pending bundles farms a block; the timestamps of some clocks.
use ledger_sim.Prelude.{◌+◌, ◌-◌, ◌*◌, ◌^◌, ◌≡◌, refl, replicate, arith}
use ledger_sim.Errors.{raise, overflow_error, >>=-eq-ok}
use ledger_sim.Atoms.BigEndian.{big_endian}
use ledger_sim.Hashable.Coin.{name, coin_bytes, std_hash}
use ledger_sim.Hashable.Blocks.{header_hash, header_codec}
use ledger_sim.Storage.RamDb.{empty}
use ledger_sim.Storage.Heap.{Heap}
use ledger_sim.Ledger.{new_ledger, next_block}
use ledger_sim.Ledger.Calls.{IsAdvanced}
use ledger_sim.Ledger.Reach.{new_ledger-IsValid}
use ledger_sim.Ledger.Clock.{bits, round_half_even, whole_seconds, timestamp_of}
use ledger_sim.Ledger.Live.{IsFresh, next_block-returns}
use ledger_sim.Validation.ChainView.{for_genesis_hash}
use ledger_sim.Tests.Toy.{toy, toy_sha256, toy_lists, toy_sizes}

-- The clock's milliseconds are dropped.
seconds_rounded_down : whole_seconds 1_999 ≡ 1
unfolding whole_seconds bits round_half_even
seconds_rounded_down = refl

-- A large clock loses bits: its last millisecond is rounded up to the next second.
seconds_rounded_up : whole_seconds (2 ^ 45 * 1000 - 1) ≡ 2 ^ 45
unfolding whole_seconds bits round_half_even
seconds_rounded_up = refl

-- The float is 2 ** 64, which does not fit in 64 bits, though the quotient does.
seconds_out_of_range : whole_seconds (2 ^ 64 * 1000 - 1) ≡ 2 ^ 64
unfolding whole_seconds bits round_half_even
seconds_out_of_range = refl

-- Halfway between two floats the even one is taken.
seconds_tie : whole_seconds ((2 ^ 53 + 1) * 1000) ≡ 2 ^ 53
unfolding whole_seconds bits round_half_even
seconds_tie = refl

float_overflows : timestamp_of (2 ^ 1024 * 1000) ≡ raise overflow_error
unfolding timestamp_of whole_seconds bits round_half_even
float_overflows = refl

abbrev nothing_stored : Heap
nothing_stored r = empty

new_ledger-IsFresh : IsFresh toy (new_ledger 0).chain_view (replicate 32 5) (replicate 32 6) 0
unfolding new_ledger for_genesis_hash name coin_bytes std_hash header_hash big_endian
new_ledger-IsFresh = record {
  names_differ = λ e. cc;
  not_genesis = λ h b farmed e. let (blob, e1, k) = >>=-eq-ok (header_codec.stream h) _ e in cc;
}

next_block-returns_example :
    IsAdvanced toy
      (replicate 32 5)
      (replicate 32 6)
      (new_ledger 0)
      nothing_stored
      (next_block toy (replicate 32 5) (replicate 32 6) (new_ledger 0) nothing_stored)
unfolding new_ledger for_genesis_hash whole_seconds bits round_half_even
next_block-returns_example =
    next_block-returns toy toy_sha256 toy_lists toy_sizes (new_ledger 0) nothing_stored
      (replicate 32 5) (replicate 32 6) (new_ledger-IsValid toy 0 nothing_stored refl) refl
      (omega arith) (omega arith) refl refl new_ledger-IsFresh
