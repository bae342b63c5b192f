-- ===== src/Ledger/Invariant.antt =====
-- A valid ledger, and the calls that keep it valid: push_tx, next_block and skip_milliseconds of
-- ledger/ledger_api.py, whether they return or raise.
use ledger_sim.Prelude.{
  ℕ, suc, some, ◌+◌, ◌≡◌, ◌≢◌, refl, sym, Bool, true, false, List, [], ◌∷◌, ◌++◌, Bytes, arith, All,
  replicate,
}
use mathlib.Core.Path.{subst}
use ledger_sim.Errors.{Res, ok, raise}
use ledger_sim.Externals.{Externals}
use ledger_sim.Hashable.SpendBundle.{SpendBundle}
use ledger_sim.Hashable.Blocks.{Header, Body, held, HeaderPointer, previous_hash, body_hash}
use ledger_sim.Storage.RamDb.{hash_preimage}
use ledger_sim.Storage.Heap.{Heap}
use ledger_sim.Validation.Consensus.{validate_spend_bundle_signature}
use ledger_sim.Validation.HeaderSignature.{check_tip_signature}
use ledger_sim.Validation.ChainView.{ChainView}
use ledger_sim.Farming.Signing.{IsSha256}
use ledger_sim.Ledger.{
  Ledger, genesis_hash, new_chain_view, accept_tx, push_tx, next_block, advance, keep_tx,
  skip_milliseconds,
}
use ledger_sim.Ledger.Sound.{IsSound, later-IsSound}
use ledger_sim.Ledger.Keeps.{new_chain_view-Keeps}
use ledger_sim.Ledger.Listing.Chain.{IsChain}
use ledger_sim.Ledger.Extends.{new_chain_view-eq-ok, farm-IsOn, after_block}
use ledger_sim.Ledger.Genesis.{hash_not_genesis}

-- The three references are one database, whose blobs stand under their hashes and whose entries are
-- not later than the next block; the chain has as many blocks as the tip's index says, each in memory
-- with its body; and the signature of each pending bundle is valid.
pub record IsValid (x : Externals) (l : Ledger) (heap : Heap) : Type 0 where
  pub one_database : l.unspent_db ≡ l.storage
  pub viewed : l.chain_view.unspent_db ≡ l.storage
  pub genesis : l.chain_view.genesis_hash ≡ genesis_hash
  pub sound : IsSound x (l.chain_view.tip_index + 1) (heap l.storage)
  pub chain : IsChain l.chain_view.tip_index l.chain_view.tip_hash
  pub pending : All (λ b. validate_spend_bundle_signature x b ≡ ok true) l.spend_bundles

-- A block on a chain makes a chain.
longer :
    (n : ℕ) (hash : Bytes) (h : Header) (b : Body) (tip : HeaderPointer)
    → (body_hash h).held ≡ some b
    → hash ≢ genesis_hash
    → previous_hash h ≡ tip
    → IsChain n tip
    → IsChain (n + 1) (held hash h)
longer n hash h b tip body different on c =
    subst (λ k. IsChain k (held hash h)) one_more
      (hash, h, b, refl, body, different, subst (IsChain n) (sym on) c)
  where
    one_more : suc n ≡ n + 1
    one_more = omega arith

module _ (x : Externals) (l : Ledger) (heap : Heap) (valid : IsValid x l heap) where
  -- the databases after an attempt to extend the chain, whatever came of it
  attempt-IsSound :
      (bundles : List SpendBundle) (ph fees_ph : Bytes)
      → IsSound x (l.chain_view.tip_index + 1) (
          (new_chain_view x l.now l.chain_view bundles ph fees_ph l.storage l.unspent_db heap).1
            l.storage)
  attempt-IsSound bundles ph fees_ph =
      subst
        (λ r.
          IsSound x (l.chain_view.tip_index + 1)
            ((new_chain_view x l.now l.chain_view bundles ph fees_ph l.storage r heap).1 l.storage))
        (sym valid.one_database)
        (new_chain_view-Keeps x l.storage l.chain_view l.now bundles ph fees_ph heap valid.sound)

  -- Only the clock and the databases differ.
  with_databases-IsValid :
      (heap' : Heap) → IsSound x (l.chain_view.tip_index + 1) (heap' l.storage) → IsValid x l heap'
  with_databases-IsValid heap' s = record {
    one_database = valid.one_database;
    viewed = valid.viewed;
    genesis = valid.genesis;
    sound = s;
    chain = valid.chain;
    pending = valid.pending;
  }

  with_bundle-IsValid :
      (tx : SpendBundle) (heap' : Heap)
      → validate_spend_bundle_signature x tx ≡ ok true
      → IsSound x (l.chain_view.tip_index + 1) (heap' l.storage)
      → IsValid x (record l { spend_bundles = l.spend_bundles ++ tx ∷ [] }) heap'
  with_bundle-IsValid tx heap' v s = record {
    one_database = valid.one_database;
    viewed = valid.viewed;
    genesis = valid.genesis;
    sound = s;
    chain = valid.chain;
    pending = all_append l.spend_bundles valid.pending;
  }
    where
      all_append :
          (bs : List SpendBundle)
          → All (λ b. validate_spend_bundle_signature x b ≡ ok true) bs
          → All (λ b. validate_spend_bundle_signature x b ≡ ok true) (bs ++ tx ∷ [])
      all_append [] h = (v, tt)
      all_append (b ∷ bs) (h, hs) = (h, all_append bs hs)

  keep_tx-IsValid :
      (tx : SpendBundle) (t : Res ChainView × Heap)
      → validate_spend_bundle_signature x tx ≡ ok true
      → IsSound x (l.chain_view.tip_index + 1) (t.1 l.storage)
      → IsValid x (keep_tx tx l t).1 (keep_tx tx l t).2
  unfolding keep_tx
  keep_tx-IsValid tx (ok view, heap') v s = with_bundle-IsValid tx heap' v s
  keep_tx-IsValid tx (raise e, heap') v s = with_databases-IsValid heap' s

  pub push_tx-IsValid :
      (tx : SpendBundle) → IsValid x (push_tx x tx l heap).1 (push_tx x tx l heap).2
  unfolding push_tx accept_tx
  push_tx-IsValid tx = go (validate_spend_bundle_signature x tx) refl
    where
      go :
          (r : Res Bool)
          → validate_spend_bundle_signature x tx ≡ r
          → IsValid x (push_tx x tx l heap).1 (push_tx x tx l heap).2
      go (ok true) e =
          rw (e, push_tx)
            (keep_tx-IsValid tx _ e
              (attempt-IsSound (l.spend_bundles ++ tx ∷ []) (replicate 32 0) (replicate 32 255)))
      go (ok false) e = rw (e, push_tx) valid
      go (raise b) e = rw (e, push_tx) valid

  module _ (sha : IsSha256 x) (key : x.hash256 (4 ∷ []) ≢ genesis_hash) where
    advance-IsValid :
        (ph fees_ph : Bytes) (r : Res ChainView)
        → (new_chain_view x l.now l.chain_view l.spend_bundles ph fees_ph l.storage l.unspent_db
            heap).0
          ≡ r
        → IsValid x (next_block x ph fees_ph l heap).1 (next_block x ph fees_ph l heap).2
    unfolding next_block advance
    advance-IsValid ph fees_ph (raise b) e =
        rw (e, next_block, advance)
          (with_databases-IsValid _ (attempt-IsSound l.spend_bundles ph fees_ph))
    advance-IsValid ph fees_ph (ok view) e =
        let (
          h,
          b,
          farmed,
          s,
          signed,
          stored,
          (t, accepted, left, done, hash, (hashed, checked), made),
        ) =
          new_chain_view-eq-ok x l.chain_view l.storage l.unspent_db l.now l.spend_bundles ph
            fees_ph heap view e in
        let heap' : Heap =
          (new_chain_view x l.now l.chain_view l.spend_bundles ph fees_ph l.storage l.unspent_db
            heap).1 in
        let (on_tip, body) = farm-IsOn x l.chain_view l.spend_bundles ph fees_ph l.now h b farmed in
        let new : ChainView = after_block x l.chain_view h hash s l.unspent_db in
        rw (e, next_block, advance)
          (subst
            (λ (v : ChainView). IsValid x (record l { spend_bundles = []; chain_view = v }) heap')
            (sym made)
            (record {
              one_database = valid.one_database;
              viewed = valid.one_database;
              genesis = valid.genesis;
              sound =
                  later-IsSound x (l.chain_view.tip_index + 1) (l.chain_view.tip_index + 1 + 1) _
                    (omega arith) (attempt-IsSound l.spend_bundles ph fees_ph);
              chain =
                  longer l.chain_view.tip_index hash h b l.chain_view.tip_hash body
                    (hash_not_genesis x sha key (hash_preimage (heap' l.storage)) h s hash signed
                      hashed
                      (subst
                        (λ g.
                          check_tip_signature x (hash_preimage (heap' l.storage)) g (held hash h) s
                          ≡ ok tt)
                        valid.genesis checked))
                    on_tip valid.chain;
              pending = tt;
            }))

    pub next_block-IsValid :
        (ph fees_ph : Bytes)
        → IsValid x (next_block x ph fees_ph l heap).1 (next_block x ph fees_ph l heap).2
    next_block-IsValid ph fees_ph = advance-IsValid ph fees_ph _ refl

  pub skip_milliseconds-IsValid :
      (ms : ℕ) → IsValid x (skip_milliseconds ms l heap).1 (skip_milliseconds ms l heap).2
  unfolding skip_milliseconds
  skip_milliseconds-IsValid ms = record {
    one_database = valid.one_database;
    viewed = valid.viewed;
    genesis = valid.genesis;
    sound = valid.sound;
    chain = valid.chain;
    pending = valid.pending;
  }
