-- ===== src/Pool/Coinbase.antt =====
-- Coinbase coins of pool/__init__.py at different indices.
use ledger_sim.Prelude.{ℕ, ◌≡◌, sym, ap, ◌∙◌, ◌<◌, ◌^◌, leb, false, arith, Bytes}
use ledger_sim.Prelude.Int.{ℤ}
use ledger_sim.Errors.{
  ok, raise_if, overflow_error, >>=-eq-ok, >>-eq-ok, raise_if-eq-ok, ok-injective,
}
use ledger_sim.Atoms.BigEndian.{from_big_endian, from_big_endian-big_endian}
use ledger_sim.Atoms.SizedBytes.{sized}
use ledger_sim.Hashable.Coin.{Coin, new_coin}
use ledger_sim.Farming.{index_as_hash}
use ledger_sim.Pool.{create_coinbase_coin}

sized_same : (n : ℕ) (b c : Bytes) → sized n b ≡ ok c → c ≡ b
unfolding sized
sized_same n b c h = ground arith

-- The index can be read off the coin.
coinbase_index :
    (i : ℕ) (ph : Bytes) (reward : ℤ) (c : Coin)
    → create_coinbase_coin i ph reward ≡ ok c
    → from_big_endian c.parent_coin_info ≡ i
unfolding create_coinbase_coin index_as_hash new_coin
coinbase_index i ph reward c h =
    let (hash, e, k) = >>=-eq-ok (index_as_hash i) _ h in
    let (small, k') = >>-eq-ok (raise_if (leb (256 ^ 32) i) overflow_error) _ e in
    let (p, e1, k1) = >>=-eq-ok (sized 32 hash) _ k in
    let (q, e2, k2) = >>=-eq-ok (sized 32 ph) _ k1 in
    ap (λ (c : Coin). from_big_endian c.parent_coin_info) (sym (ok-injective k2))
    ∙ (ap from_big_endian (sized_same 32 hash p e1 ∙ sym (ok-injective k'))
        ∙ from_big_endian-big_endian 32 i (below i (raise_if-eq-ok _ _ small)))
  where
    below : (n : ℕ) → leb (256 ^ 32) n ≡ false → n < 256 ^ 32
    below n h = ground arith

-- Blocks of different indices have different coinbase coins, whatever the puzzle hashes and rewards.
pub create_coinbase_coin_injective :
    (i j : ℕ) (ph qh : Bytes) (reward bonus : ℤ) (c : Coin)
    → create_coinbase_coin i ph reward ≡ ok c
    → create_coinbase_coin j qh bonus ≡ ok c
    → i ≡ j
create_coinbase_coin_injective i j ph qh reward bonus c e f =
    sym (coinbase_index i ph reward c e) ∙ coinbase_index j qh bonus c f
