-- ===== src/Ledger/Extends.antt =====
-- What a call of `new_chain_view` that returned has farmed, and the chain view that it returned.
use ledger_sim.Prelude.{ℕ, ◌+◌, ◌≡◌, sym, ap, ◌∙◌, some, List, Bytes}
use mathlib.Core.Path.{subst}
use ledger_sim.Validation.ChainView.Augment.{adopt_leaves}
use ledger_sim.Errors.{Res, ok, >>=-eq-ok, ok-injective}
use ledger_sim.Externals.{Externals}
use ledger_sim.Atoms.HashPointer.{HashPointer, pointer_to}
use ledger_sim.Hashable.Coin.{Coin, std_hash}
use ledger_sim.Hashable.BlsSignature.{BlsSignature}
use ledger_sim.Hashable.Eor.{EorSignature, public_key}
use ledger_sim.Hashable.Blocks.{
  Body, Header, HeaderPointer, held, ProofOfSpace, proof_of_space_codec, body_codec, previous_hash,
  body_hash, header_hash,
}
use ledger_sim.Hashable.SpendBundle.{SpendBundle, aggregate_bundles}
use ledger_sim.Storage.RamDb.{hash_preimage}
use ledger_sim.Storage.Heap.{Ref, Heap, Exec, lift, ◌>>◌, pure, bind-eq-ok, bind-ok}
use ledger_sim.Validation.AcceptBlock.{accept_new_block}
use ledger_sim.Validation.HeaderSignature.{check_tip_signature}
use ledger_sim.Validation.ChainView.{
  ChainView, tip_of, apply_deltas, extended, adopt, augment_chain_view,
}
use ledger_sim.Farming.{plot_private_key, sign_header, farm_body, farm_new_block}
use ledger_sim.Pool.{get_pool_public_key, create_coinbase_coin_and_signature}
use ledger_sim.Ledger.{store_block, extend_with, new_chain_view}
use ledger_sim.Ledger.Clock.{timestamp_of}
use ledger_sim.Ledger.Farm.{farm, reward}

module _ (x : Externals) where
  pointer_to-held :
      {T : Type 0} (to_bytes : T → Res Bytes) (v : T) (p : HashPointer T)
      → pointer_to (std_hash x) to_bytes v ≡ ok p
      → p.held ≡ some v
  unfolding pointer_to
  pointer_to-held to_bytes v p e =
      let (blob, e1, k) = >>=-eq-ok (to_bytes v) _ e in
      ap (λ (q : HashPointer _). q.held) (sym (ok-injective k))

  -- A block on top of this tip, which holds its body
  abbrev pub IsOn : HeaderPointer → Header → Body → Type 0
  IsOn tip h b = (previous_hash h ≡ tip) × ((body_hash h).held ≡ some b)

  farm_new_block-IsOn :
      (tip : HeaderPointer) (s : EorSignature) (i : ℕ) (space : ProofOfSpace) (bundle : SpendBundle)
      (coin : Coin) (signature : BlsSignature) (fees_ph : Bytes) (now : ℕ) (h : Header) (b : Body)
      → farm_new_block x tip s i space bundle coin signature fees_ph now ≡ ok (h, b)
      → IsOn tip h b
  unfolding farm_new_block
  farm_new_block-IsOn tip s i space bundle coin signature fees_ph now h b e =
      let (body, e1, k1) = >>=-eq-ok (farm_body x i bundle coin signature fees_ph) _ e in
      let (q, e2, k2) =
        >>=-eq-ok (pointer_to (std_hash x) proof_of_space_codec.stream space) _ k1 in
      let (p, e3, k3) = >>=-eq-ok (pointer_to (std_hash x) (body_codec x).stream body) _ k2 in
      let made = ok-injective k3 in
      (
        ap (λ (t : Header × Body). previous_hash t.0) (sym made),
        ap (λ (t : Header × Body). (body_hash t.0).held) (sym made)
            ∙ (pointer_to-held (body_codec x).stream body p e3
                ∙ ap (λ (t : Header × Body). some t.1) made),
      )

  pub farm-IsOn :
      (view : ChainView) (bundles : List SpendBundle) (ph fees_ph : Bytes) (now : ℕ) (h : Header)
      (b : Body)
      → farm x view bundles ph fees_ph now ≡ ok (h, b)
      → IsOn view.tip_hash h b
  unfolding farm
  farm-IsOn view bundles ph fees_ph now h b e =
      let (timestamp, e0, k0) = >>=-eq-ok (timestamp_of now) _ e in
      let (pk, e1, k1) = >>=-eq-ok (get_pool_public_key x) _ k0 in
      let ((coin, signature), e2, k2) =
        >>=-eq-ok (create_coinbase_coin_and_signature x (view.tip_index + 1) ph reward pk) _ k1 in
      let (bundle, e3, k3) = >>=-eq-ok (aggregate_bundles x bundles) _ k2 in
      farm_new_block-IsOn view.tip_hash view.tip_signature (view.tip_index + 1) _ bundle coin
        signature fees_ph timestamp h b k3

module _ (x : Externals) (view : ChainView) where
  -- the chain view after a block with this hash
  abbrev pub after_block : Header → Bytes → EorSignature → Ref → ChainView
  after_block h hash s new_db = record {
    genesis_hash = view.genesis_hash;
    tip_hash = held hash h;
    tip_signature = s;
    tip_index = view.tip_index + 1;
    unspent_db = new_db;
  }

  module _ (h : Header) (s : EorSignature) (storage new_db : Ref) where
    -- the checks that a new chain view has passed
    abbrev pub IsChecked : Bytes → Heap → Type 0
    IsChecked hash heap =
        (header_hash x h ≡ ok hash)
        × (check_tip_signature x (hash_preimage (heap storage)) view.genesis_hash (held hash h) s
            ≡ ok tt)

    extended-eq-ok :
        (heap : Heap) (v : ChainView)
        → (extended x view h s storage new_db heap).0 ≡ ok v
        → (hash : Bytes) × IsChecked hash heap × (v ≡ after_block h hash s new_db)
    unfolding extended
    extended-eq-ok heap v e =
        let (hash, e1, k1) = bind-eq-ok checks (lift (λ _. header_hash x h)) heap v e in
        let (u, e2, k2) =
          bind-eq-ok (λ _. pure (after_block h hash s new_db)) (lift (check hash)) heap v k1 in
        (hash, (e1, e2), sym (ok-injective k2))
      where
        check : Bytes → Heap → Res (Unit {0})
        check hash heap' =
            check_tip_signature x (hash_preimage (heap' storage)) view.genesis_hash (held hash h) s

        checks : Bytes → Exec ChainView
        checks hash = lift (check hash) >> pure (after_block h hash s new_db)

    -- a block that was accepted at these databases, and is the tip of the chain view
    abbrev pub IsAdopted : ℕ → Heap → ChainView → Heap → Type 0
    IsAdopted now heap v heap' =
        (t : List Coin × List Bytes) × (accept_new_block x (tip_of view heap)
            (hash_preimage (heap storage)) reward now h
          ≡ ok t)
        × (heap' ≡ (apply_deltas x (view.tip_index + 1) t.0 t.1 storage new_db heap).1)
        × ((apply_deltas x (view.tip_index + 1) t.0 t.1 storage new_db heap).0 ≡ ok tt)
        × (hash : Bytes) × IsChecked hash heap'
        × (v ≡ after_block h hash s new_db)

    augment-eq-ok :
        (now : ℕ) (heap : Heap) (v : ChainView)
        → (augment_chain_view x view h s storage new_db reward now heap).0 ≡ ok v
        → IsAdopted now heap v (augment_chain_view x view h s storage new_db reward now heap).1
    unfolding augment_chain_view adopt
    augment-eq-ok now heap v e =
        let (t, accepted, k) = bind-eq-ok (adopt x view h s storage new_db) reads heap v e in
        let (u, done, k') =
          bind-eq-ok (λ _. extended x view h s storage new_db)
            (apply_deltas x (view.tip_index + 1) t.0 t.1 storage new_db) heap v k in
        let (hash, checked, made) =
          extended-eq-ok (apply_deltas x (view.tip_index + 1) t.0 t.1 storage new_db heap).1 v k' in
        let left : (augment_chain_view x view h s storage new_db reward now heap).1
            ≡ (apply_deltas x (view.tip_index + 1) t.0 t.1 storage new_db heap).1 =
          ap (λ r. r.1) (bind-ok (adopt x view h s storage new_db) reads heap t accepted)
          ∙ adopt_leaves x view h s storage new_db t.0 t.1 heap in
        (t, accepted, left, done, hash, subst (IsChecked hash) (sym left) checked, made)
      where
        reads : Exec (List Coin × List Bytes)
        reads = lift (λ heap'.
            accept_new_block x (tip_of view heap') (hash_preimage (heap' storage)) reward now h)

  module _ (storage new_db : Ref) where
    -- A block was farmed, signed and stored, and then adopted.
    abbrev pub IsExtended : ℕ → List SpendBundle → Bytes → Bytes → Heap → ChainView → Heap → Type 0
    IsExtended now bundles ph fees_ph heap v heap' =
        (h : Header) × (b : Body) × (farm x view bundles ph fees_ph now ≡ ok (h, b))
        × (s : EorSignature) × (sign_header x h (public_key (plot_private_key x)) ≡ ok s)
        × ((store_block x storage h b heap).0 ≡ ok tt)
        × IsAdopted h s storage new_db now (store_block x storage h b heap).1 v heap'

    pub new_chain_view-eq-ok :
        (now : ℕ) (bundles : List SpendBundle) (ph fees_ph : Bytes) (heap : Heap) (v : ChainView)
        → (new_chain_view x now view bundles ph fees_ph storage new_db heap).0 ≡ ok v
        → IsExtended now bundles ph fees_ph heap v
            (new_chain_view x now view bundles ph fees_ph storage new_db heap).1
    unfolding new_chain_view extend_with
    new_chain_view-eq-ok now bundles ph fees_ph heap v e =
        let ((h, b), farmed, k) =
          bind-eq-ok (extend_with x now view storage new_db)
            (lift (λ _. farm x view bundles ph fees_ph now)) heap v e in
        let (s, signed, k') =
          bind-eq-ok (rest h b) (lift (λ _. sign_header x h (public_key (plot_private_key x)))) heap
            v k in
        let (u, stored, k'') =
          bind-eq-ok (λ _. augment h s) (store_block x storage h b) heap v k' in
        let left : (new_chain_view x now view bundles ph fees_ph storage new_db heap).1
            ≡ (augment h s (store_block x storage h b heap).1).1 =
          ap (λ r. r.1)
            (bind-ok (extend_with x now view storage new_db)
                (lift (λ _. farm x view bundles ph fees_ph now)) heap (h, b) farmed
              ∙ (bind-ok (rest h b) (lift (λ _. sign_header x h (public_key (plot_private_key x))))
                    heap s signed
                  ∙ bind-ok (λ _. augment h s) (store_block x storage h b) heap tt stored)) in
        (
          h,
          b,
          farmed,
          s,
          signed,
          stored,
          subst (IsAdopted h s storage new_db now (store_block x storage h b heap).1 v) (sym left)
              (augment-eq-ok h s storage new_db now (store_block x storage h b heap).1 v k''),
        )
      where
        augment : Header → EorSignature → Exec ChainView
        augment h s = augment_chain_view x view h s storage new_db reward now

        rest : Header → Body → EorSignature → Exec ChainView
        rest h b s = store_block x storage h b >> augment h s
