-- ===== src/Pool/Rewards.antt =====
-- When pool/__init__.py rewards a block: what `create_coinbase_coin_and_signature` needs to return.
use ledger_sim.Prelude.{
  ℕ, zero, suc, ◌^◌, ◌<◌, ◌≡◌, refl, ap, ◌∙◌, false, some, List, [], ◌∷◌, ◌++◌, Bytes, bytes_eq,
  Bool, true, if◌then◌else◌, length, leb, arith,
}
use ledger_sim.Prelude.Dict.{Dict, lookup, insert, lookup-insert, lookup-insert_self}
use ledger_sim.Prelude.Int.{ℤ}
use ledger_sim.Errors.{ok}
use ledger_sim.Externals.{Externals}
use ledger_sim.Atoms.BigEndian.{big_endian, length-big_endian}
use ledger_sim.Atoms.Codec.{from_bytes, from_bytes-stream}
use ledger_sim.Atoms.SizedBytes.{sized_lem, sized_bytes, bytes48, sized_bytes-RoundTrips}
use ledger_sim.Hashable.BlsSignature.{BlsSignature}
use ledger_sim.Hashable.Coin.{Coin, new_coin, name}
use ledger_sim.Farming.{index_as_hash}
use ledger_sim.Pool.{
  create_coinbase_coin, seed, range, pool_lookup, get_pool_public_key, sign_hash,
  signature_for_coinbase, sign_coinbase_coin, create_coinbase_coin_and_signature,
}

-- What blspy serializes: public keys of 48 bytes and signatures of 96.
pub record BlsSizes (x : Externals) : Type 0 where
  pub key_size : (k : x.PrivateKey) → length (x.public_key_bytes (x.public_key_of k)) ≡ 48
  pub signature_size :
      (k : x.PrivateKey) (h : Bytes)
      → length h ≡ 32
      → length (x.serialize (x.sign_prepend_prehashed k h)) ≡ 96

pub index_as_hash_lem : (i : ℕ) → i < 256 ^ 32 → index_as_hash i ≡ ok (big_endian 32 i)
unfolding index_as_hash
index_as_hash_lem i h = rw (small i h)
  where
    small : (n : ℕ) → n < 256 ^ 32 → leb (256 ^ 32) n ≡ false
    small n h = ground arith

-- a coin whose parent is a block's index
abbrev pub indexed_coin : ℕ → Bytes → ℤ → Coin
indexed_coin i ph amount = record {
  parent_coin_info = big_endian 32 i;
  puzzle_hash = ph;
  amount = amount;
}

pub new_coin-index :
    (i : ℕ) (ph : Bytes) (amount : ℤ)
    → length ph ≡ 32
    → new_coin (big_endian 32 i) ph amount ≡ ok (indexed_coin i ph amount)
unfolding new_coin
new_coin-index i ph amount h =
    rw (sized_lem 32 (big_endian 32 i) (length-big_endian 32 i), sized_lem 32 ph h)

range_starts : (n : ℕ) → (more : List ℕ) × (range (suc n) ≡ 0 ∷ more)
range_starts zero = ([], refl)
range_starts (suc n) =
    let (more, e) = range_starts n in (more ++ suc n ∷ [], ap (λ l. l ++ suc n ∷ []) e)

-- the public key of an index
abbrev pub pool_key : Externals → ℕ → Bytes
pool_key x i = x.public_key_bytes (x.public_key_of (x.private_child seed i))

module _ (x : Externals) (sizes : BlsSizes x) where
  key_read : (i : ℕ) → from_bytes bytes48 (pool_key x i) ≡ ok (pool_key x i)
  unfolding sized_bytes
  key_read i =
      from_bytes-stream (sized_bytes-RoundTrips 48) (pool_key x i)
        (sizes.key_size (x.private_child seed i))

  pub get_pool_public_key_lem : get_pool_public_key x ≡ ok (pool_key x 0)
  unfolding get_pool_public_key
  get_pool_public_key_lem = key_read 0

  abbrev Knows : Bytes → Dict x.PrivateKey → Type 0
  Knows pk d = (k : x.PrivateKey) × (lookup pk d ≡ some k)

  insert-Knows :
      (pk key : Bytes) (k : x.PrivateKey) (d : Dict x.PrivateKey)
      → Knows pk d
      → Knows pk (insert key k d)
  insert-Knows pk key k d (j, e) = pick (bytes_eq key pk) (lookup-insert key pk k d)
    where
      pick :
          (c : Bool)
          → lookup pk (insert key k d) ≡ (if c then some k else lookup pk d)
          → Knows pk (insert key k d)
      pick true h = (k, h)
      pick false h = (j, h ∙ e)

  pool_lookup-keeps :
      (is' : List ℕ) (pk : Bytes) (d : Dict x.PrivateKey)
      → Knows pk d
      → (d' : Dict x.PrivateKey) × (pool_lookup x is' d ≡ ok d') × Knows pk d'
  unfolding pool_lookup
  pool_lookup-keeps [] pk d h = (d, refl, h)
  pool_lookup-keeps (i ∷ is') pk d h =
      let (d', e, k) =
        pool_lookup-keeps is' pk (insert (pool_key x i) (x.private_child seed i) d)
          (insert-Knows pk (pool_key x i) (x.private_child seed i) d h) in
      (d', rw (key_read i) e, k)

  -- The lookup has the key of the first index.
  pool_lookup-first :
      (n : ℕ)
      → (d : Dict x.PrivateKey) × (pool_lookup x (range (suc n)) [] ≡ ok d) × Knows (pool_key x 0) d
  unfolding pool_lookup
  pool_lookup-first n =
      let (more, e) = range_starts n in
      let (d, made, k) =
        pool_lookup-keeps more (pool_key x 0) (insert (pool_key x 0) (x.private_child seed 0) [])
          (x.private_child seed 0, lookup-insert_self (pool_key x 0) (x.private_child seed 0) []) in
      (d, ap (λ is'. pool_lookup x is' []) e ∙ rw (key_read 0) made, k)

  sign_coinbase_coin-returns :
      (c : Coin)
      → length (name x c) ≡ 32
      → (s : BlsSignature) × (sign_coinbase_coin x c (pool_key x 0) ≡ ok s)
  unfolding sign_coinbase_coin signature_for_coinbase sign_hash
  sign_coinbase_coin-returns c h =
      let (d, made, (k, known)) = pool_lookup-first 99 in
      (
        record { sig = x.serialize (x.sign_prepend_prehashed k (name x c)) },
        rw (
          made,
          known,
          sized_lem 96 (x.serialize (x.sign_prepend_prehashed k (name x c)))
              (sizes.signature_size k (name x c) h),
        ),
      )

  -- A block whose index fits in 32 bytes is rewarded, and the coin is the one asked for.
  pub create_coinbase_coin_and_signature-returns :
      (i : ℕ) (ph : Bytes) (reward : ℤ)
      → i < 256 ^ 32
      → length ph ≡ 32
      → length (name x (indexed_coin i ph reward)) ≡ 32
      → (s : BlsSignature) × (create_coinbase_coin_and_signature x i ph reward (pool_key x 0)
          ≡ ok (indexed_coin i ph reward, s))
  unfolding create_coinbase_coin_and_signature create_coinbase_coin
  create_coinbase_coin_and_signature-returns i ph reward small size named =
      let (s, e) = sign_coinbase_coin-returns (indexed_coin i ph reward) named in
      (s, rw (index_as_hash_lem i small, new_coin-index i ph reward size, e))
