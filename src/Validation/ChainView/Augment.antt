-- ===== src/Validation/ChainView/Augment.antt =====
-- What `augment_chain_view` leaves in the databases.
use ledger_sim.Prelude.{ℕ, ◌+◌, ◌≡◌, ◌≢◌, refl, ap, ◌∙◌, List, Bytes, All}
use ledger_sim.Prelude.Int.{ℤ}
use ledger_sim.Errors.{Res, ok, raise, Exception}
use ledger_sim.Externals.{Externals}
use ledger_sim.Hashable.Coin.{Coin}
use ledger_sim.Hashable.Eor.{EorSignature}
use ledger_sim.Hashable.Blocks.{Header, held, header_hash}
use ledger_sim.Storage.RamDb.{hash_preimage, unspent_for_coin_name}
use ledger_sim.Storage.Heap.{Ref, Heap, Exec, ◌>>=◌, ◌>>◌, lift, pure, bind-ok, bind-raise, seq-ok}
use ledger_sim.Validation.AcceptBlock.{accept_new_block}
use ledger_sim.Validation.HeaderSignature.{check_tip_signature}
use ledger_sim.Validation.ChainView.{
  ChainView, tip_of, apply_deltas, augment_chain_view, adopt, extended,
}
use ledger_sim.Validation.ChainView.Deltas.{IsKnown, marked, apply_deltas_lem}
use ledger_sim.Validation.ChainView.Keeps.{apply_deltas-Keeps}

module _ {A B : Type 0} where
  -- Reading changes no object.
  lift_keeps :
      (k : A → Exec B) (f : Heap → Res A) (heap : Heap)
      → ((a : A) → (k a heap).1 ≡ heap)
      → ((lift f >>= k) heap).1 ≡ heap
  lift_keeps k f heap same = go (f heap) refl
    where
      go : (r : Res A) → f heap ≡ r → ((lift f >>= k) heap).1 ≡ heap
      go (ok a) e = ap (λ t. t.1) (bind-ok k (lift f) heap a e) ∙ same a
      go (raise b) e = ap (λ t. t.1) (bind-raise k (lift f) heap b e)

module _ (x : Externals) (view : ChainView) (h : Header) (s : EorSignature) where
  -- The last statements read only.
  pub extended_keeps :
      (storage new_db : Ref) (heap : Heap) → (extended x view h s storage new_db heap).1 ≡ heap
  unfolding extended
  extended_keeps storage new_db heap =
      lift_keeps
        (λ hash.
          lift (checks hash)
          >> pure (record {
            genesis_hash = view.genesis_hash;
            tip_hash = held hash h;
            tip_signature = s;
            tip_index = view.tip_index + 1;
            unspent_db = new_db;
          }))
        (λ _. header_hash x h) heap
        (λ hash.
          lift_keeps {B = ChainView}
            (λ _. pure (record {
              genesis_hash = view.genesis_hash;
              tip_hash = held hash h;
              tip_signature = s;
              tip_index = view.tip_index + 1;
              unspent_db = new_db;
            }))
            (checks hash) heap (λ _. refl))
    where
      checks : Bytes → Heap → Res (Unit {0})
      checks hash heap' =
          check_tip_signature x (hash_preimage (heap' storage)) view.genesis_hash (held hash h) s

  -- An accepted block leaves what `apply_deltas` leaves.
  pub adopt_leaves :
      (storage new_db : Ref) (adds : List Coin) (rems : List Bytes) (heap : Heap)
      → (adopt x view h s storage new_db (adds, rems) heap).1
        ≡ (apply_deltas x (view.tip_index + 1) adds rems storage new_db heap).1
  unfolding adopt
  adopt_leaves storage new_db adds rems heap = go (apply heap).0 refl
    where
      apply : Exec (Unit {0})
      apply = apply_deltas x (view.tip_index + 1) adds rems storage new_db

      later : Exec ChainView
      later = extended x view h s storage new_db

      go : (r : Res (Unit {0})) → (apply heap).0 ≡ r → ((apply >> later) heap).1 ≡ (apply heap).1
      go (ok a) e =
          ap (λ t. t.1) (seq-ok later apply heap e) ∙ extended_keeps storage new_db (apply heap).1
      go (raise b) e = ap (λ t. t.1) (bind-raise (λ _. later) apply heap b e)

  module _ (storage new_db : Ref) (reward : ℤ) (timestamp : ℕ) (heap : Heap) where
    abbrev augment : Res ChainView × Heap
    augment = augment_chain_view x view h s storage new_db reward timestamp heap

    -- the verdict on the block
    abbrev pub verdict : Res (List Coin × List Bytes)
    verdict =
        accept_new_block x (tip_of view heap) (hash_preimage (heap storage)) reward timestamp h

    abbrev reads : Exec (List Coin × List Bytes)
    reads = lift (λ heap'.
        accept_new_block x (tip_of view heap') (hash_preimage (heap' storage)) reward timestamp h)

    -- A block that is refused leaves every database as it was, and the error is passed on.
    pub augment_chain_view-refused : (e : Exception) → verdict ≡ raise e → augment ≡ (raise e, heap)
    unfolding augment_chain_view
    augment_chain_view-refused e r = bind-raise (adopt x view h s storage new_db) reads heap e r

    pub augment_chain_view-accepted :
        (adds : List Coin) (rems : List Bytes)
        → verdict ≡ ok (adds, rems)
        → augment.1 ≡ (apply_deltas x (view.tip_index + 1) adds rems storage new_db heap).1
    unfolding augment_chain_view
    augment_chain_view-accepted adds rems r =
        ap (λ t. t.1) (bind-ok (adopt x view h s storage new_db) reads heap (adds, rems) r)
        ∙ adopt_leaves storage new_db adds rems heap

    -- Where the storage and the new unspent database are two objects, the new chain view's unspent
    -- database gets no entry, whatever the block adds or removes, and whatever the call returns.
    pub augment_chain_view-keeps :
        (two : storage ≢ new_db) → (augment.1 new_db).unspent_db ≡ (heap new_db).unspent_db
    augment_chain_view-keeps two = go verdict refl
      where
        go :
            (r : Res (List Coin × List Bytes))
            → verdict ≡ r
            → (augment.1 new_db).unspent_db ≡ (heap new_db).unspent_db
        go (ok (adds, rems)) e =
            ap (λ (t : Heap). (t new_db).unspent_db) (augment_chain_view-accepted adds rems e)
            ∙ apply_deltas-Keeps x (view.tip_index + 1) storage new_db two adds rems heap
        go (raise e') e =
            ap (λ (t : Res ChainView × Heap). (t.1 new_db).unspent_db)
              (augment_chain_view-refused e' e)

  -- Where the storage is the unspent database too, as in a ledger, an accepted block whose removed
  -- coins are known leaves the entry of every coin as it was, but that added coins are confirmed at
  -- the index after the tip, and removed coins are spent at it. It does so also where the signature
  -- is refused, and the call raises.
  pub augment_chain_view-marks :
      (r : Ref) (reward : ℤ) (timestamp : ℕ) (heap : Heap) (adds : List Coin) (rems : List Bytes)
      → verdict r r reward timestamp heap ≡ ok (adds, rems)
      → All (IsKnown x (view.tip_index + 1) r heap adds) rems
      → (n : Bytes)
      → unspent_for_coin_name ((augment_chain_view x view h s r r reward timestamp heap).1 r) n
        ≡ marked x (view.tip_index + 1) r adds rems heap n
  augment_chain_view-marks r reward timestamp heap adds rems accepted known n =
      ap (λ (t : Heap). unspent_for_coin_name (t r) n)
        (augment_chain_view-accepted r r reward timestamp heap adds rems accepted)
      ∙ (apply_deltas_lem x (view.tip_index + 1) r adds rems heap known).1 n
