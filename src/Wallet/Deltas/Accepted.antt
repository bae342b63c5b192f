-- ===== src/Wallet/Deltas/Accepted.antt =====
-- What a wallet reads off a body against what the chain view takes from it.
use ledger_sim.Prelude.{ℕ, ◌≡◌, some, List, Bytes, ap, sym}
use ledger_sim.Prelude.Int.{ℤ}
use ledger_sim.Errors.{ok}
use ledger_sim.Externals.{Externals}
use ledger_sim.Atoms.HashPointer.{Storage}
use ledger_sim.Hashable.Coin.{Coin}
use ledger_sim.Hashable.Blocks.{Body, Header, body_hash, body_obj}
use ledger_sim.Validation.AcceptBlock.{Tip, accept_new_block}
use ledger_sim.Validation.AcceptBlock.Rules.{accept_new_block_iff}
use ledger_sim.Wallet.Deltas.{additions_for_body, removals_for_body}

module _ (x : Externals) (tip : Tip) (storage : Storage) (reward : ℤ) (timestamp : ℕ)
    (h : Header) where
  -- The additions and removals of an accepted block are those that `additions_for_body` and
  -- `removals_for_body` read off its body.
  pub accept_new_block-deltas :
      (adds : List Coin) (rems : List Bytes)
      → accept_new_block x tip storage reward timestamp h ≡ ok (adds, rems)
      → (body : Body) × (body_obj x storage (body_hash h) ≡ ok (some body))
        × (additions_for_body x body ≡ ok adds)
        × (removals_for_body x body ≡ ok rems)
  unfolding additions_for_body removals_for_body
  accept_new_block-deltas adds rems e =
      let (extends, found) =
        (accept_new_block_iff x tip storage reward timestamp h adds rems).0 e in
      let (npcs, created, cpcs, pairs, a, added, removed) = found.2 in
      (
        found.0,
        found.1,
        rw (a.spends, a.creates) (ap ok (sym added)),
        rw a.spends (ap ok (sym removed)),
      )
