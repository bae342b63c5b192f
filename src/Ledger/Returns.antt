-- ===== src/Ledger/Returns.antt =====
-- When `new_chain_view` of ledger/ledger_api.py returns, on one database.
use ledger_sim.Prelude.{
  ℕ, ◌+◌, ◌^◌, ◌<◌, ◌≡◌, ◌≢◌, refl, ap, ◌∙◌, true, false, some, List, Bytes, bytes_eq, bytes_eq_iff,
  bytes_eq_refl, length, All, arith,
}
use ledger_sim.Prelude.Int.{ℤ}
use ledger_sim.Errors.{Res, ok}
use ledger_sim.Externals.{Externals}
use ledger_sim.Atoms.HashPointer.{HashPointer, Storage, obj}
use ledger_sim.Atoms.Ints.{uint64, InRange}
use ledger_sim.Hashable.BlsSignature.{BlsSignature}
use ledger_sim.Hashable.Coin.{Coin, name, std_hash}
use ledger_sim.Hashable.Eor.{EorSignature, public_key, sign}
use ledger_sim.Hashable.Blocks.{
  Body, Header, held, header_hash, header_obj, ProofOfSpace, proof_of_space_hash,
  proof_of_space_obj,
}
use ledger_sim.Hashable.SpendBundle.{SpendBundle, aggregate_bundles}
use ledger_sim.Storage.RamDb.{hash_preimage}
use ledger_sim.Storage.Heap.{Ref, Heap, Exec, lift, pure, ◌>>◌, bind-ok, seq-ok}
use ledger_sim.Validation.AcceptBlock.{accept_new_block}
use ledger_sim.Validation.Consensus.{validate_spend_bundle_signature}
use ledger_sim.Validation.HeaderSignature.{check_tip_signature}
use ledger_sim.Validation.ChainView.{
  ChainView, tip_of, apply_deltas, extended, adopt, augment_chain_view,
}
use ledger_sim.Validation.ChainView.Deltas.{IsKnown, apply_deltas_lem}
use ledger_sim.Wallet.Deltas.{fees}
use ledger_sim.Farming.{plot_private_key, sign_header}
use ledger_sim.Farming.Signing.{IsSha256, check_header_signature-sign_header}
use ledger_sim.Farming.Returns.{body_for, IsBlock, farm_new_block-returns}
use ledger_sim.Pool.Rewards.{
  BlsSizes, pool_key, indexed_coin, get_pool_public_key_lem,
  create_coinbase_coin_and_signature-returns,
}
use ledger_sim.Ledger.{store_block, extend_with, new_chain_view}
use ledger_sim.Ledger.Clock.{whole_seconds, timestamp_of_lem}
use ledger_sim.Ledger.Farm.{farm, reward}
use ledger_sim.Ledger.Extends.{after_block}

module _ (x : Externals) where
  -- the proof of space of every block of a ledger
  abbrev pub ledger_space : ProofOfSpace
  ledger_space = record {
    pool_public_key = pool_key x 0;
    plot_public_key = public_key (plot_private_key x);
  }

  -- the body of the block that a ledger farms from bundles with these fees
  abbrev pub ledger_body : ℕ → SpendBundle → ℤ → BlsSignature → Bytes → Bytes → Body
  ledger_body i bundle f signature ph fees_ph =
      body_for x i bundle f (indexed_coin i ph reward) signature fees_ph

  space_found :
      (storage : Storage) (q : HashPointer ProofOfSpace) (space : ProofOfSpace)
      → q.held ≡ some space
      → proof_of_space_obj x storage q ≡ ok (some space)
  unfolding proof_of_space_obj obj
  space_found storage q space e = rw e refl

  module _ (sha : IsSha256 x) (sizes : BlsSizes x) where
    pub name-size : (c : Coin) → length (name x c) ≡ 32
    unfolding name std_hash
    name-size c = sha.size _

    pub farm-returns :
        (view : ChainView) (bundles : List SpendBundle) (ph fees_ph : Bytes) (now : ℕ)
        (bundle : SpendBundle) (f : ℤ)
        → view.tip_index + 1 < 256 ^ 32
        → whole_seconds now < 256 ^ 8
        → length ph ≡ 32
        → length fees_ph ≡ 32
        → aggregate_bundles x bundles ≡ ok bundle
        → validate_spend_bundle_signature x bundle ≡ ok true
        → fees x bundle ≡ ok f
        → InRange uint64 f
        → (s : BlsSignature) × (h : Header) × (farm x view bundles ph fees_ph now
            ≡ ok (h, ledger_body (view.tip_index + 1) bundle f s ph fees_ph))
          × IsBlock x view.tip_hash
              (whole_seconds now)
              ledger_space
              (ledger_body (view.tip_index + 1) bundle f s ph fees_ph)
              h
    unfolding farm
    farm-returns view bundles ph fees_ph now bundle f small clock size size' aggregated valid paid
          fits =
        let (s, rewarded) =
          create_coinbase_coin_and_signature-returns x sizes (view.tip_index + 1) ph reward small
            size (name-size (indexed_coin (view.tip_index + 1) ph reward)) in
        let (h, farmed, block) =
          farm_new_block-returns x view.tip_hash view.tip_signature (view.tip_index + 1)
            ledger_space bundle f (indexed_coin (view.tip_index + 1) ph reward) s fees_ph
            (whole_seconds now) small size' valid paid fits (1_000_000_000, refl) in
        (
          s,
          h,
          rw (timestamp_of_lem now clock, get_pool_public_key_lem x sizes, rewarded, aggregated)
              farmed,
          block,
        )

    module _ (view : ChainView) (r : Ref) (now : ℕ) (h : Header) (b : Body)
        (block : IsBlock x view.tip_hash (whole_seconds now) ledger_space b h)
        (clock : whole_seconds now < 256 ^ 8) where
      abbrev pub blob_of : Bytes
      blob_of = (block.header_streams clock).0

      -- the farmer's signature of the header
      abbrev pub signature_of : EorSignature
      signature_of = sign (plot_private_key x) (x.hash256 blob_of)

      pub header-hashed : header_hash x h ≡ ok (x.sha256 blob_of)
      unfolding header_hash std_hash
      header-hashed = rw (block.header_streams clock).1

      header-signed : sign_header x h (public_key (plot_private_key x)) ≡ ok signature_of
      unfolding sign_header
      header-signed =
          rw (bytes_eq_refl (public_key (plot_private_key x)), (block.header_streams clock).1)

      signature-checked :
          (storage : Storage)
          → x.sha256 blob_of ≢ view.genesis_hash
          → check_tip_signature x storage view.genesis_hash (held (x.sha256 blob_of) h) signature_of
            ≡ ok tt
      unfolding check_tip_signature header_obj
      signature-checked storage different =
          rw (differs (x.sha256 blob_of) view.genesis_hash different) (
            check_header_signature-sign_header x storage (held (x.sha256 blob_of) h) h ledger_space
              signature_of sha refl
              (space_found storage (proof_of_space_hash h) ledger_space block.holds_space)
              header-signed)
        where
          differs : (a b : Bytes) → a ≢ b → bytes_eq a b ≡ false
          differs a b ne = ground (arith, bytes_eq_iff a b)

      store_block-returns : (heap : Heap) → (store_block x r h b heap).0 ≡ ok tt
      unfolding store_block
      store_block-returns heap = rw ((block.header_streams clock).1, block.body_blob.1) refl

      pub extended-returns :
          (heap : Heap)
          → x.sha256 blob_of ≢ view.genesis_hash
          → (extended x view h signature_of r r heap).0
            ≡ ok (after_block x view h (x.sha256 blob_of) signature_of r)
      unfolding extended
      extended-returns heap different =
          ap (λ t. t.0)
            (bind-ok checks (lift (λ _. header_hash x h)) heap (x.sha256 blob_of) header-hashed
              ∙ bind-ok (λ _. pure (after_block x view h (x.sha256 blob_of) signature_of r))
                  (lift (check (x.sha256 blob_of))) heap tt
                  (signature-checked (hash_preimage (heap r)) different))
        where
          check : Bytes → Heap → Res (Unit {0})
          check hash heap' =
              check_tip_signature x (hash_preimage (heap' r)) view.genesis_hash (held hash h)
                signature_of

          checks : Bytes → Exec ChainView
          checks hash = lift (check hash) >> pure (after_block x view h hash signature_of r)

      -- Where the block is accepted, the chain is extended by it.
      pub extend_with-returns :
          (heap : Heap) (adds : List Coin) (rems : List Bytes)
          → x.sha256 blob_of ≢ view.genesis_hash
          → accept_new_block x
              (tip_of view (store_block x r h b heap).1)
              (hash_preimage ((store_block x r h b heap).1 r))
              reward
              now
              h
            ≡ ok (adds, rems)
          → All (IsKnown x (view.tip_index + 1) r (store_block x r h b heap).1 adds) rems
          → (extend_with x now view r r (h, b) heap).0
            ≡ ok (after_block x view h (x.sha256 blob_of) signature_of r)
      unfolding extend_with augment_chain_view adopt
      extend_with-returns heap adds rems different accepted known =
          let heap1 : Heap = (store_block x r h b heap).1 in
          let heap2 : Heap = (apply_deltas x (view.tip_index + 1) adds rems r r heap1).1 in
          ap (λ t. t.0)
            (bind-ok rest (lift (λ _. sign_header x h (public_key (plot_private_key x)))) heap
                signature_of header-signed
              ∙ seq-ok (augment signature_of) (store_block x r h b) heap (store_block-returns heap)
              ∙ bind-ok (adopt x view h signature_of r r) reads heap1 (adds, rems) accepted
              ∙ seq-ok (extended x view h signature_of r r)
                  (apply_deltas x (view.tip_index + 1) adds rems r r) heap1
                  (apply_deltas_lem x (view.tip_index + 1) r adds rems heap1 known).0)
          ∙ extended-returns heap2 different
        where
          augment : EorSignature → Exec ChainView
          augment s = augment_chain_view x view h s r r reward now

          rest : EorSignature → Exec ChainView
          rest s = store_block x r h b >> augment s

          reads : Exec (List Coin × List Bytes)
          reads = lift (λ heap'.
              accept_new_block x (tip_of view heap') (hash_preimage (heap' r)) reward now h)

      pub new_chain_view-returns :
          (bundles : List SpendBundle) (ph fees_ph : Bytes) (heap : Heap) (adds : List Coin)
          (rems : List Bytes)
          → farm x view bundles ph fees_ph now ≡ ok (h, b)
          → x.sha256 blob_of ≢ view.genesis_hash
          → accept_new_block x
              (tip_of view (store_block x r h b heap).1)
              (hash_preimage ((store_block x r h b heap).1 r))
              reward
              now
              h
            ≡ ok (adds, rems)
          → All (IsKnown x (view.tip_index + 1) r (store_block x r h b heap).1 adds) rems
          → (new_chain_view x now view bundles ph fees_ph r r heap).0
            ≡ ok (after_block x view h (x.sha256 blob_of) signature_of r)
      unfolding new_chain_view
      new_chain_view-returns bundles ph fees_ph heap adds rems farmed different accepted known =
          ap (λ t. t.0)
            (bind-ok (extend_with x now view r r) (lift (λ _. farm x view bundles ph fees_ph now))
              heap (h, b) farmed)
          ∙ extend_with-returns heap adds rems different accepted known
