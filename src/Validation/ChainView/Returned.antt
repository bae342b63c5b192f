-- ===== src/Validation/ChainView/Returned.antt =====
-- What `apply_deltas` has done to one database when it returned, whatever the database held before.
use ledger_sim.Prelude.{
  ℕ, ◌≡◌, refl, sym, ap, ◌∙◌, ◌||◌, Bool, Option, none, some, List, [], ◌∷◌, Bytes, bytes_eq,
  bytes_eq_iff, elem, if◌then◌else◌, arith, Option-cases, inl, inr,
}
use ledger_sim.Errors.{Res, ok, raise, attribute_error}
use ledger_sim.Externals.{Externals}
use ledger_sim.Hashable.Coin.{Coin}
use ledger_sim.Hashable.Unspent.{Unspent}
use ledger_sim.Storage.RamDb.{unspent_for_coin_name, set_unspent_for_coin_name}
use ledger_sim.Storage.Heap.{Ref, Heap, update, seq-ok}
use ledger_sim.Validation.ChainView.{apply_additions, apply_removals, apply_deltas}
use ledger_sim.Validation.ChainView.Deltas.{
  entry, spent_at, after_removal, apply_additions_lem, marked,
}

module _ (x : Externals) (i : ℕ) (r : Ref) where
  -- the database after the entry of one coin was spent
  abbrev after : Bytes → Unspent → Heap → Heap
  after m u heap =
      update r
        (set_unspent_for_coin_name m
          (record { confirmed_block_index = u.confirmed_block_index; spent_block_index = i }))
        heap

  removals-unknown :
      (m : Bytes) (rems : List Bytes) (heap : Heap)
      → unspent_for_coin_name (heap r) m ≡ none
      → apply_removals i (m ∷ rems) r heap ≡ (raise attribute_error, heap)
  unfolding apply_removals
  removals-unknown m rems heap e = rw e refl

  removals-known :
      (m : Bytes) (rems : List Bytes) (heap : Heap) (u : Unspent)
      → unspent_for_coin_name (heap r) m ≡ some u
      → apply_removals i (m ∷ rems) r heap ≡ apply_removals i rems r (after m u heap)
  unfolding apply_removals
  removals-known m rems heap u e = rw e refl

  raised :
      {t : Res (Unit {0}) × Heap} {heap : Heap}
      → t ≡ (raise attribute_error, heap)
      → t.0 ≡ ok tt
      → ⊥
  raised e h = cc

  apply_removals-returned :
      (rems : List Bytes) (heap : Heap)
      → (apply_removals i rems r heap).0 ≡ ok tt
      → (n : Bytes)
      → entry x i r (apply_removals i rems r heap).1 n
        ≡ (if elem n rems then spent_at i (entry x i r heap n) else entry x i r heap n)
  unfolding apply_removals elem
  apply_removals-returned [] heap e n = refl
  apply_removals-returned (m ∷ rems) heap e n =
      elim (Option-cases (unspent_for_coin_name (heap r) m)) [
        | inl unknown ↦ absurd (raised (removals-unknown m rems heap unknown) e)
        | inr (u, known) ↦
            let same = removals-known m rems heap u known in
            ap (λ t. entry x i r t.1 n) same
            ∙ (apply_removals-returned rems (after m u heap) (ap (λ t. t.0) (sym same) ∙ e) n
                ∙ pick m (elem n rems) (entry x i r (after m u heap) n) (entry x i r heap n)
                    (after_removal x i r m u heap n known))
      ]
    where
      pick :
          (m : Bytes) (later : Bool) (o o' : Option Unspent)
          → o ≡ (if bytes_eq m n then spent_at i o' else o')
          → (if later then spent_at i o else o)
            ≡ (if bytes_eq n m || later then spent_at i o' else o')
      pick m later o o' e = ground (arith, bytes_eq_iff n m, bytes_eq_iff m n)

  -- Where the unspent database is the storage too, and the update returned, the entry of every coin is as
  -- it was, but that added coins are confirmed at the block, and removed coins are spent at it.
  pub apply_deltas-returned :
      (adds : List Coin) (rems : List Bytes) (heap : Heap)
      → (apply_deltas x i adds rems r r heap).0 ≡ ok tt
      → (n : Bytes)
      → unspent_for_coin_name ((apply_deltas x i adds rems r r heap).1 r) n
        ≡ marked x i r adds rems heap n
  unfolding apply_deltas
  apply_deltas-returned adds rems heap e n =
      let (done, entries) = apply_additions_lem x i r adds heap in
      let same = seq-ok (apply_removals i rems r) (apply_additions x i adds r r) heap done in
      ap (λ t. unspent_for_coin_name (t.1 r) n) same
      ∙ (apply_removals-returned rems (apply_additions x i adds r r heap).1
            (ap (λ t. t.0) (sym same) ∙ e) n
          ∙ ap (λ o. if elem n rems then spent_at i o else o) (entries n))
