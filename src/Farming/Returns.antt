-- ===== src/Farming/Returns.antt =====
-- When `farm_new_block` of farming/__init__.py returns a block, and the block that it returns.
use ledger_sim.Prelude.{ℕ, ◌^◌, ◌<◌, ◌≡◌, refl, true, some, Bytes, length, arith}
use ledger_sim.Prelude.Int.{ℤ}
use ledger_sim.Errors.{ok}
use ledger_sim.Externals.{Externals}
use ledger_sim.Atoms.Codec.{field, streamable}
use ledger_sim.Atoms.Ints.{uint64, uint, struct_stream, pack, InRange, uint-RoundTrips}
use ledger_sim.Atoms.SizedBytes.{sized_bytes}
use ledger_sim.Hashable.BlsSignature.{BlsSignature, bls_codec}
use ledger_sim.Hashable.Coin.{Coin, coin_codec}
use ledger_sim.Hashable.Eor.{EorSignature, signature_codec}
use ledger_sim.Hashable.Blocks.{
  Body, body_codec, Header, HeaderPointer, header_codec, ProofOfSpace, proof_of_space_codec,
  proof_of_space_hash, body_hash, previous_hash,
}
use ledger_sim.Hashable.Program.{program_codec}
use ledger_sim.Hashable.SpendBundle.{SpendBundle}
use ledger_sim.Validation.Consensus.{validate_spend_bundle_signature}
use ledger_sim.Wallet.Deltas.{fees}
use ledger_sim.Farming.{best_solution_program, farm_body, farm_new_block}
use ledger_sim.Atoms.HashPointer.{pointer_to}
use ledger_sim.Pool.Rewards.{indexed_coin, index_as_hash_lem, new_coin-index}

coin-streams :
    (c : Coin) → InRange uint64 c.amount → (blob : Bytes) × (coin_codec.stream c ≡ ok blob)
unfolding coin_codec field streamable struct_stream pack sized_bytes
coin-streams c (n, e) = rw e (_, refl)

uint64-streams : (n : ℕ) → n < 256 ^ 8 → (blob : Bytes) × ((uint uint64).stream n ≡ ok blob)
uint64-streams n h = let r = uint-RoundTrips 8 (omega arith) in (r.blob n h, r.streams n h)

module _ (x : Externals) where
  -- A body whose two coins have amounts of 64 bits is streamed.
  body-streams :
      (b : Body)
      → InRange uint64 b.coinbase_coin.amount
      → InRange uint64 b.fees_coin.amount
      → b.program_cost < 256 ^ 8
      → (blob : Bytes) × ((body_codec x).stream b ≡ ok blob)
  unfolding body_codec field streamable bls_codec program_codec sized_bytes
  body-streams b reward paid cost =
      let (s, e) = coin-streams b.coinbase_coin reward in
      let (t, f) = coin-streams b.fees_coin paid in
      let (u, g) = uint64-streams b.program_cost cost in rw (e, f, g) (_, refl)

  -- the body that a bundle with these fees is farmed to
  abbrev pub body_for : ℕ → SpendBundle → ℤ → Coin → BlsSignature → Bytes → Body
  body_for i bundle f coinbase signature ph = record {
    coinbase_signature = signature;
    coinbase_coin = coinbase;
    fees_coin = indexed_coin i ph f;
    solution_program = best_solution_program x bundle;
    program_cost = 0;
    aggregated_signature = bundle.aggregated_signature;
  }

  farm_body-returns :
      (i : ℕ) (bundle : SpendBundle) (f : ℤ) (coinbase : Coin) (signature : BlsSignature)
      (ph : Bytes)
      → i < 256 ^ 32
      → length ph ≡ 32
      → validate_spend_bundle_signature x bundle ≡ ok true
      → fees x bundle ≡ ok f
      → farm_body x i bundle coinbase signature ph ≡ ok (body_for i bundle f coinbase signature ph)
  unfolding farm_body
  farm_body-returns i bundle f coinbase signature ph small size valid paid =
      rw (valid, index_as_hash_lem i small, paid, new_coin-index i ph f size)

  -- A header on this tip, which holds its body and its proof of space
  pub record IsBlock (tip : HeaderPointer) (now : ℕ) (space : ProofOfSpace) (b : Body) (h : Header)
      : Type 0 where
    pub on : previous_hash h ≡ tip
    pub holds : (body_hash h).held ≡ some b
    pub holds_space : (proof_of_space_hash h).held ≡ some space
    pub header_streams : now < 256 ^ 8 → (blob : Bytes) × (header_codec.stream h ≡ ok blob)
    pub body_blob : (blob : Bytes) × ((body_codec x).stream b ≡ ok blob)

  -- A bundle with a valid signature, and with fees of 64 bits, is farmed.
  pub farm_new_block-returns :
      (tip : HeaderPointer) (s : EorSignature) (i : ℕ) (space : ProofOfSpace) (bundle : SpendBundle)
      (f : ℤ) (coinbase : Coin) (signature : BlsSignature) (ph : Bytes) (now : ℕ)
      → i < 256 ^ 32
      → length ph ≡ 32
      → validate_spend_bundle_signature x bundle ≡ ok true
      → fees x bundle ≡ ok f
      → InRange uint64 f
      → InRange uint64 coinbase.amount
      → (h : Header) × (farm_new_block x tip s i space bundle coinbase signature ph now
          ≡ ok (h, body_for i bundle f coinbase signature ph))
        × IsBlock tip now space (body_for i bundle f coinbase signature ph) h
  unfolding farm_new_block proof_of_space_codec field streamable sized_bytes header_codec
      signature_codec pointer_to
  farm_new_block-returns tip s i space bundle f coinbase signature ph now small size valid paid fits
        reward =
      let (blob, e) =
        body-streams (body_for i bundle f coinbase signature ph) reward fits (omega arith) in
      rw (farm_body-returns i bundle f coinbase signature ph small size valid paid, e)
        (
          _,
          refl,
          record {
            on = refl;
            holds = refl;
            holds_space = refl;
            header_streams = λ h. let (u, g) = uint64-streams now h in rw g (_, refl);
            body_blob = (blob, e);
          },
        )
