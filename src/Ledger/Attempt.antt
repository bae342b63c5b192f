-- ===== src/Ledger/Attempt.antt =====
-- `new_chain_view` of ledger/ledger_api.py on one database: the block of a call that returned.
use ledger_sim.Prelude.{
  ℕ, ◌+◌, ◌≡◌, refl, sym, ap, ◌∙◌, some, List, Bytes, map, elem, if◌then◌else◌,
}
use mathlib.Core.Path.{subst}
use ledger_sim.Errors.{ok}
use ledger_sim.Externals.{Externals}
use ledger_sim.Hashable.Coin.{Coin, name}
use ledger_sim.Hashable.Eor.{EorSignature}
use ledger_sim.Hashable.Blocks.{Body, Header, header_hash, header_codec, body_codec}
use ledger_sim.Hashable.SpendBundle.{SpendBundle}
use ledger_sim.Storage.RamDb.{hash_preimage, add_preimage, unspent_for_coin_name}
use ledger_sim.Storage.Heap.{Ref, Heap, Exec, lift, modify, ◌>>=◌, ◌>>◌}
use ledger_sim.Storage.Heap.Keeps.{Keeps, lift-bind-Keeps, seq-Keeps}
use ledger_sim.Validation.AcceptBlock.{accept_new_block}
use ledger_sim.Validation.ChainView.{ChainView, tip_of}
use ledger_sim.Validation.ChainView.Deltas.{marked, update_self, spent_at, added_at}
use ledger_sim.Validation.ChainView.Returned.{apply_deltas-returned}
use ledger_sim.Ledger.{store_block, new_chain_view}
use ledger_sim.Ledger.Farm.{farm, reward}
use ledger_sim.Ledger.Extends.{new_chain_view-eq-ok, farm-IsOn, IsOn, after_block}

module _ (x : Externals) (r : Ref) where
  -- The block's blobs leave the entries as they were.
  store_block-entries :
      (h : Header) (b : Body) (start : Heap) (n : Bytes)
      → unspent_for_coin_name ((store_block x r h b start).1 r) n
        ≡ unspent_for_coin_name (start r) n
  unfolding store_block unspent_for_coin_name add_preimage
  store_block-entries h b start n =
      lift-bind-Keeps Same (λ _. header_codec.stream h)
        (λ blob. modify r (add_preimage x blob) >> rest)
        (λ blob. seq-Keeps Same (modify r (add_preimage x blob)) rest (adds blob) (
          lift-bind-Keeps Same (λ _. (body_codec x).stream b)
            (λ blob'. modify r (add_preimage x blob')) adds))
        start refl
    where
      Same : Heap → Type 0
      Same heap = unspent_for_coin_name (heap r) n ≡ unspent_for_coin_name (start r) n

      rest : Exec (Unit {0})
      rest = lift (λ _. (body_codec x).stream b) >>= λ blob. modify r (add_preimage x blob)

      adds : (blob : Bytes) → Keeps Same (modify r (add_preimage x blob))
      adds blob heap e =
          ap (λ db. unspent_for_coin_name db n) (update_self r (add_preimage x blob) heap) ∙ e

-- A block was farmed at this chain view and accepted, `new` is the chain view with it as the tip, and the
-- database has its additions and removals.
pub record Farmed (x : Externals) (now : ℕ) (view : ChainView) (bundles : List SpendBundle)
    (ph fees_ph : Bytes) (r : Ref) (heap : Heap) (new : ChainView) (heap' : Heap) (h : Header)
    (b : Body) : Type 0 where
  pub hash : Bytes
  pub signature : EorSignature
  pub adds : List Coin
  pub rems : List Bytes
  pub farmed : farm x view bundles ph fees_ph now ≡ ok (h, b)
  pub extends : IsOn x view.tip_hash h b
  pub accepted :
      accept_new_block x
        (tip_of view (store_block x r h b heap).1)
        (hash_preimage ((store_block x r h b heap).1 r))
        reward
        now
        h
      ≡ ok (adds, rems)
  pub hashed : header_hash x h ≡ ok hash
  pub becomes : new ≡ after_block x view h hash signature r
  pub entries :
      (n : Bytes)
      → unspent_for_coin_name (heap' r) n ≡ marked x (view.tip_index + 1) r adds rems heap n

module _ (x : Externals) (now : ℕ) (view : ChainView) (bundles : List SpendBundle)
    (ph fees_ph : Bytes) (r : Ref) (heap : Heap) where
  new_chain_view-Farmed :
      (new : ChainView)
      → (new_chain_view x now view bundles ph fees_ph r r heap).0 ≡ ok new
      → (h : Header) × (b : Body) × Farmed x now view bundles ph fees_ph r heap new
          (new_chain_view x now view bundles ph fees_ph r r heap).1
          h
          b
  new_chain_view-Farmed new e =
      let (
        h,
        b,
        farmed,
        s,
        signed,
        stored,
        (t, accepted, left, done, hash, (hashed, checked), made),
      ) =
        new_chain_view-eq-ok x view r r now bundles ph fees_ph heap new e in
      let heap1 : Heap = (store_block x r h b heap).1 in
      (
        h,
        b,
        record {
          hash = hash;
          signature = s;
          adds = t.0;
          rems = t.1;
          farmed = farmed;
          extends = farm-IsOn x view bundles ph fees_ph now h b farmed;
          accepted = accepted;
          hashed = hashed;
          becomes = made;
          entries = λ n.
              ap (λ (q : Heap). unspent_for_coin_name (q r) n) left
              ∙ (apply_deltas-returned x (view.tip_index + 1) r t.0 t.1 heap1 done n
                  ∙ ap
                      (λ o.
                        let o' =
                          if elem n (map (name x) t.0)
                          then some (added_at (view.tip_index + 1))
                          else o in
                        if elem n t.1 then spent_at (view.tip_index + 1) o' else o')
                      (store_block-entries x r h b heap n));
        },
      )

  -- the same, where the new unspent database is this database
  pub one_database-Farmed :
      (db : Ref) (new : ChainView)
      → db ≡ r
      → (new_chain_view x now view bundles ph fees_ph r db heap).0 ≡ ok new
      → (h : Header) × (b : Body) × Farmed x now view bundles ph fees_ph r heap new
          (new_chain_view x now view bundles ph fees_ph r db heap).1
          h
          b
  one_database-Farmed db new same =
      subst
        (λ q.
          (new_chain_view x now view bundles ph fees_ph r q heap).0 ≡ ok new
          → (h : Header) × (b : Body) × Farmed x now view bundles ph fees_ph r heap new
              (new_chain_view x now view bundles ph fees_ph r q heap).1 h b)
        (sym same) (new_chain_view-Farmed new)
