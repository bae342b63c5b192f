-- ===== src/Validation/ChainView/Keeps.antt =====
-- What `apply_deltas` leaves alone, where its two databases are two.
use ledger_sim.Prelude.{ℕ, ◌≡◌, ◌≢◌, refl, sym, ap, ◌∙◌, Option, none, some, List, [], ◌∷◌, Bytes}
use mathlib.Core.Path.{subst}
use ledger_sim.Errors.{ok}
use ledger_sim.Externals.{Externals}
use ledger_sim.Hashable.Coin.{Coin, name, coin_bytes}
use ledger_sim.Hashable.Unspent.{Unspent}
use ledger_sim.Storage.RamDb.{RamDb, add_preimage, unspent_for_coin_name, set_unspent_for_coin_name}
use ledger_sim.Storage.Heap.{Ref, Heap, update, seq-ok}
use ledger_sim.Validation.ChainView.{apply_additions, apply_removals, apply_deltas}
use ledger_sim.Validation.ChainView.Deltas.{added_at, update_self, update_ne}

-- The unspent entries of another database stay as they are, if the storage's entries are not
-- written. The storage is the database that only gets preimages.
module _ (x : Externals) (i : ℕ) (u s : Ref) (two : u ≢ s) where
  abbrev Keeps : Heap → Heap → Type 0
  Keeps heap heap' = (heap' s).unspent_db ≡ (heap s).unspent_db

  additions_keep :
      (adds : List Coin) (heap : Heap) → Keeps heap (apply_additions x i adds u s heap).1
  unfolding apply_additions
  additions_keep [] heap = refl
  additions_keep (c ∷ adds) heap =
      let heap' : Heap = update u (set_unspent_for_coin_name (name x c) (added_at i)) heap in
      additions_keep adds (update s (add_preimage x (coin_bytes x c)) heap')
      ∙ (ap (λ (db : RamDb). db.unspent_db) (update_self s (add_preimage x (coin_bytes x c)) heap')
          ∙ (same_entries (coin_bytes x c) (heap' s)
              ∙ ap (λ (db : RamDb). db.unspent_db)
                  (update_ne u s (set_unspent_for_coin_name (name x c) (added_at i)) heap two)))
    where
      same_entries :
          (blob : Bytes) (db : RamDb) → (add_preimage x blob db).unspent_db ≡ db.unspent_db
      same_entries blob db = unfold add_preimage in refl

  additions_return :
      (adds : List Coin) (heap : Heap) → (apply_additions x i adds u s heap).0 ≡ ok tt
  unfolding apply_additions
  additions_return [] heap = refl
  additions_return (c ∷ adds) heap = additions_return adds (
      update s (add_preimage x (coin_bytes x c))
        (update u (set_unspent_for_coin_name (name x c) (added_at i)) heap))

  removals_keep : (rems : List Bytes) (heap : Heap) → Keeps heap (apply_removals i rems u heap).1
  unfolding apply_removals
  removals_keep [] heap = refl
  removals_keep (n ∷ rems) heap = go (removals_keep rems) (unspent_for_coin_name (heap u) n) refl
    where
      spent : Unspent → Unspent
      spent v = record { confirmed_block_index = v.confirmed_block_index; spent_block_index = i }

      go :
          ((heap' : Heap) → Keeps heap' (apply_removals i rems u heap').1)
          → (o : Option Unspent) → unspent_for_coin_name (heap u) n ≡ o
          → Keeps heap (apply_removals i (n ∷ rems) u heap).1
      go later none e = rw e
      go later (some v) e = rw e (
          later (update u (set_unspent_for_coin_name n (spent v)) heap)
          ∙ ap (λ (db : RamDb). db.unspent_db)
              (update_ne u s (set_unspent_for_coin_name n (spent v)) heap two))

  -- Where the two databases are two, the second one gets no unspent entry.
  pub apply_deltas-Keeps :
      (adds : List Coin) (rems : List Bytes) (heap : Heap)
      → Keeps heap (apply_deltas x i adds rems u s heap).1
  unfolding apply_deltas
  apply_deltas-Keeps adds rems heap =
      subst (λ t. Keeps heap t.1)
        (sym (
          seq-ok (apply_removals i rems u) (apply_additions x i adds u s) heap
            (additions_return adds heap)))
        (removals_keep rems (apply_additions x i adds u s heap).1 ∙ additions_keep adds heap)
