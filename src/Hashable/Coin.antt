-- ===== src/Hashable/Coin.antt =====
-- hashable/Coin.py: a coin, its bytes and its name.
use ledger_sim.Prelude.{
  ◌≡◌, refl, Bool, true, ◌&&◌, ◌++◌, Bytes, none, some, bytes_eq, bytes_eq_iff, arith, length, take,
  drop, take-append, drop-append, length-append,
}
use mathlib.Core.List.{append_assoc}
use ledger_sim.Prelude.Int.{ℤ, eqb_ℤ, eqb_ℤ_iff}
use ledger_sim.Errors.{Res, ok, raise, type_error, ◌>>=◌}
use ledger_sim.Externals.{Externals}
use ledger_sim.Atoms.SizedBytes.{sized, sized_lem, bytes32, sized_bytes-RoundTrips}
use ledger_sim.Atoms.Codec.{
  Codec, field, streamable, RoundTrips, field-RoundTrips, streamable-RoundTrips,
}
use ledger_sim.Atoms.Ints.{uint64, struct_stream, struct_stream-RoundTrips, InRange}
use ledger_sim.Atoms.HashPointer.{Storage}

-- `amount` is an `int`: the class `uint64` checks its range only when it is packed.
pub record Coin : Type 0 where
  pub parent_coin_info : Bytes
  pub puzzle_hash : Bytes
  pub amount : ℤ

-- `Coin(parent_coin_info, puzzle_hash, amount)`, which casts the first two to 32 bytes
unfoldable pub new_coin : Bytes → Bytes → ℤ → Res Coin
new_coin parent ph amount = do
  p ← sized 32 parent
  h ← sized 32 ph
  ok (record { parent_coin_info = p; puzzle_hash = h; amount = amount })

-- `==` of the dataclass
unfoldable pub coin_eq : Coin → Coin → Bool
coin_eq a b =
    bytes_eq a.parent_coin_info b.parent_coin_info
    && (bytes_eq a.puzzle_hash b.puzzle_hash && eqb_ℤ a.amount b.amount)

pub coin_eq_iff : (a b : Coin) → coin_eq a b ≡ true → a ≡ b
unfolding coin_eq
coin_eq_iff a b h = ground (
  arith,
  bytes_eq_iff a.parent_coin_info b.parent_coin_info,
  bytes_eq_iff a.puzzle_hash b.puzzle_hash,
  eqb_ℤ_iff a.amount b.amount,
)

-- Its two hashes are hashes.
pub record IsCoin (c : Coin) : Type 0 where
  pub parent_size : length c.parent_coin_info ≡ 32
  pub hash_size : length c.puzzle_hash ≡ 32

pub new_coin-IsCoin :
    (parent ph : Bytes) (amount : ℤ) (c : Coin) → new_coin parent ph amount ≡ ok c → IsCoin c
unfolding new_coin sized
new_coin-IsCoin parent ph amount c e = ground arith

module _ (x : Externals) where
  -- `__bytes__`: the amount is last, in as many bytes as it takes.
  unfoldable pub coin_bytes : Coin → Bytes
  coin_bytes c = c.parent_coin_info ++ (c.puzzle_hash ++ x.int_to_bytes c.amount)

  -- `Coin.from_bytes`
  unfoldable pub coin_from_bytes : Bytes → Res Coin
  unfolding new_coin
  coin_from_bytes blob = do
    let parent = take 32 blob
    let ph = take 32 (drop 32 blob)
    amount ← x.int_from_bytes (drop 64 blob)
    new_coin parent ph amount

  -- `std_hash`, of bytes; a digest has the 32 bytes that `Hash` wants.
  unfoldable pub std_hash : Bytes → Bytes
  std_hash b = x.sha256 b

  -- `coin.name()`
  unfoldable pub name : Coin → Bytes
  unfolding std_hash coin_bytes
  name c = std_hash (coin_bytes c)

  -- `CoinPointer.obj`: the blob is not compared with the pointer, and slicing `None` raises.
  unfoldable pub coin_obj : Storage → Bytes → Res Coin
  coin_obj storage n = elim (storage n) [
    | none ↦ raise type_error
    | some blob ↦ coin_from_bytes blob
  ]

-- The integers that the casts of clvm write and read back.
pub record IntsReadBack (x : Externals) : Type 0 where
  pub at : (a : ℤ) → x.int_from_bytes (x.int_to_bytes a) ≡ ok a

module _ (x : Externals) (ints : IntsReadBack x) where
  drop_both : (c : Coin) → IsCoin c → drop 64 (coin_bytes x c) ≡ x.int_to_bytes c.amount
  unfolding coin_bytes
  drop_both c h = rw (← append_assoc) (
      drop-append (c.parent_coin_info ++ c.puzzle_hash) (x.int_to_bytes c.amount) 64
        (omega (arith, length-append c.parent_coin_info c.puzzle_hash, h.parent_size, h.hash_size)))

  -- If clvm's casts of integers read back what they write, a coin whose two hashes have 32 bytes is
  -- read back from its bytes, whatever its amount.
  pub coin_from_bytes-coin_bytes : (c : Coin) → IsCoin c → coin_from_bytes x (coin_bytes x c) ≡ ok c
  unfolding coin_from_bytes coin_bytes
  coin_from_bytes-coin_bytes c h = rw (
    drop_both c h,
    take-append c.parent_coin_info (c.puzzle_hash ++ x.int_to_bytes c.amount) 32 h.parent_size,
    drop-append c.parent_coin_info (c.puzzle_hash ++ x.int_to_bytes c.amount) 32 h.parent_size,
    take-append c.puzzle_hash (x.int_to_bytes c.amount) 32 h.hash_size,
    ints.at c.amount,
    sized_lem 32 c.parent_coin_info h.parent_size,
    sized_lem 32 c.puzzle_hash h.hash_size,
  )

-- The stream of a coin inside a larger object: three fields, with eight bytes for the amount.
unfoldable pub coin_codec : Codec Coin
unfolding field streamable
coin_codec =
    streamable
      (λ (t : Bytes × (Bytes × ℤ)). record {
        parent_coin_info = t.0;
        puzzle_hash = t.1.0;
        amount = t.1.1;
      })
      (λ (c : Coin). (c.parent_coin_info, (c.puzzle_hash, c.amount)))
      (field bytes32 (field bytes32 (struct_stream uint64)))

-- The coins that a block can carry.
abbrev pub IsStreamable : Coin → Type 0
IsStreamable c =
    (length c.parent_coin_info ≡ 32) × ((length c.puzzle_hash ≡ 32) × InRange uint64 c.amount)

pub coin_codec-RoundTrips : RoundTrips coin_codec IsStreamable
unfolding coin_codec
coin_codec-RoundTrips =
    streamable-RoundTrips _ _ (λ c. refl)
      (field-RoundTrips (sized_bytes-RoundTrips 32) (
        field-RoundTrips (sized_bytes-RoundTrips 32)
          (struct_stream-RoundTrips uint64 (omega arith))))
