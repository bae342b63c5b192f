-- ===== src/Ledger/Calls.antt =====
-- push_tx and next_block of ledger/ledger_api.py, call by call: what is returned, what the ledger is
-- afterwards, and what the database holds.
use ledger_sim.Prelude.{
  ◌≡◌, refl, sym, ap, ◌⊎◌, inl, inr, some, Option, List, [], ◌∷◌, ◌++◌, Bytes, replicate, Bool,
  true, false,
}
use mathlib.Core.Path.{subst}
use ledger_sim.Errors.{Res, ok, raise, Exception, value_error}
use ledger_sim.Externals.{Externals}
use ledger_sim.Hashable.Blocks.{Body, Header, held, header_obj, body_obj, body_hash}
use ledger_sim.Hashable.SpendBundle.{SpendBundle}
use ledger_sim.Storage.RamDb.{hash_preimage}
use ledger_sim.Storage.Heap.{Ref, Heap}
use ledger_sim.Validation.Consensus.{validate_spend_bundle_signature}
use ledger_sim.Validation.ChainView.{ChainView}
use ledger_sim.Ledger.{
  Ledger, new_chain_view, keep_tx, accept_tx, push_tx, tip_block, advance, next_block,
}
use ledger_sim.Ledger.Listing.{body_of}
use ledger_sim.Ledger.Listing.Chain.{body_of_held}
use ledger_sim.Ledger.Attempt.{Farmed, one_database-Farmed}

-- The call raised, and the ledger is as it was.
abbrev pub IsRefused : {A : Type 0} → Ledger → Res A × Ledger × Heap → Type 0
IsRefused l t = ((e : Exception) × (t.0 ≡ raise e)) × (t.1 ≡ l)

module _ (x : Externals) where
  tip_block-held :
      (view : ChainView) (r : Ref) (heap : Heap) (hash : Bytes) (h : Header) (b : Body)
      → view.tip_hash ≡ held hash h
      → (body_hash h).held ≡ some b
      → tip_block x view r heap ≡ ok (h, some b)
  unfolding tip_block header_obj body_of
  tip_block-held view r heap hash h b p e =
      let found : body_obj x (hash_preimage (heap r)) (body_hash h) ≡ ok (some b) =
        body_of_held x (hash_preimage (heap r)) h b e in
      rw (p, found, tip_block) refl

  -- A block was farmed with the pending bundles, is returned, and is the tip; no bundle is pending.
  abbrev pub IsAdvanced :
      Bytes → Bytes → Ledger → Heap → Res (Header × Option Body) × Ledger × Heap → Type 0
  IsAdvanced ph fees_ph l heap t =
      (new : ChainView) × (h : Header) × (b : Body) × Farmed x l.now l.chain_view l.spend_bundles ph
        fees_ph l.storage heap new t.2 h b
      × (t.0 ≡ ok (h, some b))
      × (t.1 ≡ record l { spend_bundles = []; chain_view = new })

  -- A bundle with a valid signature, with which a block was farmed, is pending; the chain view is as it was,
  -- but the database has the additions and removals of that block.
  abbrev pub IsKept : SpendBundle → Ledger → Heap → Res (Unit {0}) × Ledger × Heap → Type 0
  IsKept tx l heap t =
      (validate_spend_bundle_signature x tx ≡ ok true)
      × (new : ChainView) × (h : Header) × (b : Body) × Farmed x l.now l.chain_view
          (l.spend_bundles ++ tx ∷ []) (replicate 32 0) (replicate 32 255) l.storage heap new t.2 h
          b
      × (t.0 ≡ ok tt)
      × (t.1 ≡ record l { spend_bundles = l.spend_bundles ++ tx ∷ [] })

  module _ (l : Ledger) (heap : Heap) where
    -- what an attempt that returned has farmed
    abbrev FarmsBlock : List SpendBundle → Bytes → Bytes → Res ChainView × Heap → Type 0
    FarmsBlock bundles ph fees_ph t =
        (new : ChainView)
        → t.0 ≡ ok new
        → (h : Header) × (b : Body) × Farmed x l.now l.chain_view bundles ph fees_ph l.storage heap
            new t.1 h b

    -- an attempt that returned
    pub advance-IsAdvanced :
        (ph fees_ph : Bytes) (t : Res ChainView × Heap) (new : ChainView)
        → t.0 ≡ ok new
        → FarmsBlock l.spend_bundles ph fees_ph t
        → IsAdvanced ph fees_ph l heap (advance x l t)
    unfolding advance
    advance-IsAdvanced ph fees_ph (raise e, heap') new h f = cc
    advance-IsAdvanced ph fees_ph (ok v, heap') new h f =
        let (h, b, made) = f v refl in
        (
          v,
          h,
          b,
          made,
          tip_block-held v l.storage heap' made.hash h b
              (ap (λ (v : ChainView). v.tip_hash) made.becomes) made.extends.1,
          refl,
        )

    advance_lem :
        (ph fees_ph : Bytes) (t : Res ChainView × Heap)
        → FarmsBlock l.spend_bundles ph fees_ph t
        → IsRefused l (advance x l t) ⊎ IsAdvanced ph fees_ph l heap (advance x l t)
    unfolding advance
    advance_lem ph fees_ph (raise e, heap') f = inl ((e, refl), refl)
    advance_lem ph fees_ph (ok new, heap') f =
        inr (advance-IsAdvanced ph fees_ph (ok new, heap') new refl f)

    keep_tx_lem :
        (tx : SpendBundle) (t : Res ChainView × Heap)
        → validate_spend_bundle_signature x tx ≡ ok true
        → FarmsBlock (l.spend_bundles ++ tx ∷ []) (replicate 32 0) (replicate 32 255) t
        → IsRefused l (keep_tx tx l t) ⊎ IsKept tx l heap (keep_tx tx l t)
    unfolding keep_tx
    keep_tx_lem tx (raise e, heap') v f = inl ((e, refl), refl)
    keep_tx_lem tx (ok new, heap') v f =
        let (h, b, made) = f new refl in inr (v, new, h, b, made, refl, refl)

  push_tx-valid :
      (tx : SpendBundle) (l : Ledger) (heap : Heap)
      → validate_spend_bundle_signature x tx ≡ ok true
      → push_tx x tx l heap ≡ accept_tx x tx l heap
  unfolding push_tx
  push_tx-valid tx l heap e = rw (e, push_tx) refl

  module _ (l : Ledger) (heap : Heap) (one_database : l.unspent_db ≡ l.storage) where
    pub attempt-FarmsBlock :
        (bundles : List SpendBundle) (ph fees_ph : Bytes)
        → FarmsBlock l heap bundles ph fees_ph
            (new_chain_view x l.now l.chain_view bundles ph fees_ph l.storage l.unspent_db heap)
    attempt-FarmsBlock bundles ph fees_ph new e =
        one_database-Farmed x l.now l.chain_view bundles ph fees_ph l.storage heap l.unspent_db new
          one_database e

    -- Where the ledger's two databases are one, a call of `do_next_block` raises and leaves the ledger as it
    -- was, or it returns a block on top of the tip that the chain view accepted. Then this block is the new tip, no
    -- bundle is pending, and the database is as before, but that the block's additions are confirmed at its index,
    -- and its removals are spent at it.
    pub next_block_lem :
        (ph fees_ph : Bytes)
        → IsRefused l (next_block x ph fees_ph l heap)
          ⊎ IsAdvanced ph fees_ph l heap (next_block x ph fees_ph l heap)
    unfolding next_block
    next_block_lem ph fees_ph =
        advance_lem l heap ph fees_ph _ (attempt-FarmsBlock l.spend_bundles ph fees_ph)

    -- Where the ledger's two databases are one, a call of `do_push_tx` raises and leaves the ledger as it was,
    -- or the bundle has a valid signature and is the last of the pending ones. Then the database has the
    -- additions and removals of a block that the chain does not have, as of the block after the tip.
    pub push_tx_lem :
        (tx : SpendBundle)
        → IsRefused l (push_tx x tx l heap) ⊎ IsKept tx l heap (push_tx x tx l heap)
    unfolding push_tx accept_tx
    push_tx_lem tx = go (validate_spend_bundle_signature x tx) refl
      where
        go :
            (r : Res Bool)
            → validate_spend_bundle_signature x tx ≡ r
            → IsRefused l (push_tx x tx l heap) ⊎ IsKept tx l heap (push_tx x tx l heap)
        go (ok true) e =
            subst (λ t. IsRefused l t ⊎ IsKept tx l heap t) (sym (push_tx-valid tx l heap e))
              (keep_tx_lem l heap tx _ e (
                attempt-FarmsBlock (l.spend_bundles ++ tx ∷ []) (replicate 32 0)
                  (replicate 32 255)))
        go (ok false) e = rw (e, push_tx) (inl ((value_error, refl), refl))
        go (raise b) e = rw (e, push_tx) (inl ((b, refl), refl))
