-- ===== src/Hashable/Unspent.antt =====
-- hashable/Unspent.py: what the unspent database keeps of a coin.
use ledger_sim.Prelude.{ℕ, ◌<◌, ◌^◌, refl, arith}
use ledger_sim.Atoms.Codec.{
  Codec, field, streamable, RoundTrips, field-RoundTrips, streamable-RoundTrips,
}
use ledger_sim.Atoms.Ints.{uint32, uint, uint-RoundTrips}

-- An index of 0 stands for "never".
pub record Unspent : Type 0 where
  pub confirmed_block_index : ℕ
  pub spent_block_index : ℕ

unfoldable pub unspent_codec : Codec Unspent
unfolding field streamable
unspent_codec =
    streamable (λ (t : ℕ × ℕ). record { confirmed_block_index = t.0; spent_block_index = t.1 })
      (λ (u : Unspent). (u.confirmed_block_index, u.spent_block_index))
      (field (uint uint32) (uint uint32))

-- An `Unspent` with indices of 32 bits is read back from its bytes.
pub unspent_codec-RoundTrips :
    RoundTrips unspent_codec
      (λ u. (u.confirmed_block_index < 256 ^ 4) × (u.spent_block_index < 256 ^ 4))
unfolding unspent_codec
unspent_codec-RoundTrips =
    streamable-RoundTrips _ _ (λ u. refl)
      (field-RoundTrips (uint-RoundTrips 4 (omega arith)) (uint-RoundTrips 4 (omega arith)))
