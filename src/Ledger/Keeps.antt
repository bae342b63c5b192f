-- ===== src/Ledger/Keeps.antt =====
-- The calls that extend the chain keep the databases sound, whether they return or raise.
use ledger_sim.Prelude.{ℕ, ◌+◌, sym, List, Bytes, arith}
use mathlib.Core.Path.{subst}
use ledger_sim.Externals.{Externals}
use ledger_sim.Hashable.Coin.{Coin}
use ledger_sim.Hashable.Eor.{EorSignature, public_key}
use ledger_sim.Hashable.Blocks.{Body, Header, header_codec, body_codec}
use ledger_sim.Hashable.SpendBundle.{SpendBundle}
use ledger_sim.Storage.RamDb.{hash_preimage, add_preimage}
use ledger_sim.Storage.Heap.{Ref, Heap, Exec, lift, modify, ◌>>=◌, ◌>>◌}
use ledger_sim.Storage.Heap.Keeps.{Keeps, lift-bind-Keeps, seq-Keeps}
use ledger_sim.Validation.AcceptBlock.{accept_new_block}
use ledger_sim.Validation.ChainView.{
  ChainView, tip_of, apply_deltas, extended, adopt, augment_chain_view,
}
use ledger_sim.Validation.ChainView.Augment.{extended_keeps}
use ledger_sim.Farming.{plot_private_key, sign_header}
use ledger_sim.Ledger.{store_block, extend_with, new_chain_view}
use ledger_sim.Ledger.Farm.{farm, reward}
use ledger_sim.Ledger.Sound.{Fits, update-Fits, add_preimage-IsSound, apply_deltas-Keeps}

module _ (x : Externals) (r : Ref) (view : ChainView) where
  abbrev Sound : Heap → Type 0
  Sound = Fits x (view.tip_index + 1) r

  adopt-Keeps :
      (h : Header) (s : EorSignature) (t : List Coin × List Bytes)
      → Keeps Sound (adopt x view h s r r t)
  unfolding adopt
  adopt-Keeps h s (adds, rems) =
      seq-Keeps Sound (apply_deltas x (view.tip_index + 1) adds rems r r) (extended x view h s r r)
        (apply_deltas-Keeps x (view.tip_index + 1) r (omega arith) adds rems)
        (λ heap fits. subst Sound (sym (extended_keeps x view h s r r heap)) fits)

  augment_chain_view-Keeps :
      (h : Header) (s : EorSignature) (now : ℕ)
      → Keeps Sound (augment_chain_view x view h s r r reward now)
  unfolding augment_chain_view
  augment_chain_view-Keeps h s now =
      lift-bind-Keeps Sound
        (λ heap. accept_new_block x (tip_of view heap) (hash_preimage (heap r)) reward now h)
        (adopt x view h s r r) (adopt-Keeps h s)

  add-Keeps : (blob : Bytes) → Keeps Sound (modify r (add_preimage x blob))
  add-Keeps blob heap fits =
      update-Fits x (view.tip_index + 1) r (add_preimage x blob) heap
        (add_preimage-IsSound x (view.tip_index + 1) blob (heap r) fits)

  store_block-Keeps : (h : Header) (b : Body) → Keeps Sound (store_block x r h b)
  unfolding store_block
  store_block-Keeps h b =
      lift-bind-Keeps Sound (λ _. header_codec.stream h)
        (λ blob. modify r (add_preimage x blob) >> rest)
        (λ blob. seq-Keeps Sound (modify r (add_preimage x blob)) rest (add-Keeps blob) (
          lift-bind-Keeps Sound (λ _. (body_codec x).stream b)
            (λ blob'. modify r (add_preimage x blob')) add-Keeps))
    where
      rest : Exec (Unit {0})
      rest = lift (λ _. (body_codec x).stream b) >>= λ blob. modify r (add_preimage x blob)

  extend_with-Keeps : (now : ℕ) (t : Header × Body) → Keeps Sound (extend_with x now view r r t)
  unfolding extend_with
  extend_with-Keeps now (h, b) =
      lift-bind-Keeps Sound (λ _. sign_header x h (public_key (plot_private_key x)))
        (λ s. store_block x r h b >> augment_chain_view x view h s r r reward now)
        (λ s.
          seq-Keeps Sound (store_block x r h b) (augment_chain_view x view h s r r reward now)
            (store_block-Keeps h b) (augment_chain_view-Keeps h s now))

  -- Whatever it returns or raises, the call keeps blobs under their hashes, and every entry between
  -- the first block and the block after the tip.
  pub new_chain_view-Keeps :
      (now : ℕ) (bundles : List SpendBundle) (ph fees_ph : Bytes)
      → Keeps Sound (new_chain_view x now view bundles ph fees_ph r r)
  unfolding new_chain_view
  new_chain_view-Keeps now bundles ph fees_ph =
      lift-bind-Keeps Sound (λ _. farm x view bundles ph fees_ph now) (extend_with x now view r r)
        (extend_with-Keeps now)
