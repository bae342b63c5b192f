-- ===== src/Ledger/Sound.antt =====
-- What the calls keep of the databases: blobs stand under their hashes, and no entry is later than
-- the block after the tip.
use ledger_sim.Prelude.{
  ℕ, Bool, true, false, ◌≤◌, ◌≡◌, refl, sym, ◌∙◌, Option, none, some, some_inj, List, [], ◌∷◌,
  Bytes, bytes_eq, if◌then◌else◌, arith,
}
use mathlib.Core.Path.{subst}
use ledger_sim.Prelude.Dict.{lookup, lookup-insert}
use ledger_sim.Externals.{Externals}
use ledger_sim.Hashable.Coin.{Coin, name, coin_bytes}
use ledger_sim.Hashable.Unspent.{Unspent}
use ledger_sim.Storage.RamDb.{
  RamDb, hash_preimage, add_preimage, unspent_for_coin_name, set_unspent_for_coin_name,
}
use ledger_sim.Storage.RamDb.Laws.{IsHonest, add_preimage-IsHonest}
use ledger_sim.Storage.Heap.{Ref, Heap, update}
use ledger_sim.Storage.Heap.Keeps.{Keeps, seq-Keeps}
use ledger_sim.Validation.ChainView.{apply_additions, apply_removals, apply_deltas}
use ledger_sim.Validation.ChainView.Deltas.{update_self, added_at}

-- confirmed at the first block at the earliest, and nothing later than the index
abbrev pub Fit : ℕ → Unspent → Type 0
Fit i u = (1 ≤ u.confirmed_block_index) × (u.confirmed_block_index ≤ i) × (u.spent_block_index ≤ i)

-- A database whose blobs stand under their hashes, and whose entries lie between the first block and
-- this index.
pub record IsSound (x : Externals) (i : ℕ) (db : RamDb) : Type 0 where
  pub honest : IsHonest x db
  pub entries : (n : Bytes) (u : Unspent) → unspent_for_coin_name db n ≡ some u → Fit i u

module _ (x : Externals) (i : ℕ) where
  pub add_preimage-IsSound :
      (blob : Bytes) (db : RamDb) → IsSound x i db → IsSound x i (add_preimage x blob db)
  add_preimage-IsSound blob db s = record {
    honest = add_preimage-IsHonest x blob db s.honest;
    entries = λ n u e. s.entries n u (unfold add_preimage unspent_for_coin_name in e);
  }

  set_unspent_for_coin_name-IsSound :
      (m : Bytes) (v : Unspent) (db : RamDb)
      → Fit i v
      → IsSound x i db
      → IsSound x i (set_unspent_for_coin_name m v db)
  unfolding set_unspent_for_coin_name unspent_for_coin_name
  set_unspent_for_coin_name-IsSound m v db fit s = record {
    honest = record { at = λ h b e. s.honest.at h b (unfold hash_preimage in e) };
    entries = λ n u e.
        pick (bytes_eq m n) (lookup n db.unspent_db) u (s.entries n u)
          (sym (lookup-insert m n v db.unspent_db) ∙ e);
  }
    where
      pick :
          (c : Bool) (o : Option Unspent) (u : Unspent)
          → (o ≡ some u → Fit i u)
          → (if c then some v else o) ≡ some u
          → Fit i u
      pick true o u old e = subst (λ (w : Unspent). Fit i w) (some_inj e) fit
      pick false o u old e = old e

  -- What is sound up to an index is so up to a later one.
  pub later-IsSound : (j : ℕ) (db : RamDb) → i ≤ j → IsSound x i db → IsSound x j db
  later-IsSound j db le s = record {
    honest = s.honest;
    entries = λ n u e. let (a, b, c) = s.entries n u e in (a, omega arith, omega arith);
  }

-- Every database is sound up to the index.
module _ (x : Externals) (i : ℕ) (r : Ref) where
  abbrev pub Fits : Heap → Type 0
  Fits heap = IsSound x i (heap r)

  pub update-Fits :
      (f : RamDb → RamDb) (heap : Heap) → IsSound x i (f (heap r)) → Fits (update r f heap)
  update-Fits f heap s = subst (IsSound x i) (sym (update_self r f heap)) s

  fresh_Fit : (1 ≤ i) → Fit i (added_at i)
  fresh_Fit pos = (pos, omega arith, omega arith)

  spent : Unspent → Unspent
  spent v = record { confirmed_block_index = v.confirmed_block_index; spent_block_index = i }

  spent_Fit : (v : Unspent) → Fit i v → Fit i (spent v)
  unfolding spent
  spent_Fit v (a, b, c) = (a, b, omega arith)

  additions-Keeps : (1 ≤ i) → (adds : List Coin) → Keeps Fits (apply_additions x i adds r r)
  unfolding apply_additions
  additions-Keeps pos [] heap s = s
  additions-Keeps pos (c ∷ adds) heap s =
      let set : RamDb → RamDb = set_unspent_for_coin_name (name x c) (added_at i) in
      let add : RamDb → RamDb = add_preimage x (coin_bytes x c) in
      let heap' : Heap = update r set heap in
      additions-Keeps pos adds (update r add heap') (
        update-Fits add heap' (
          add_preimage-IsSound x i (coin_bytes x c) (heap' r) (
            update-Fits set heap (
              set_unspent_for_coin_name-IsSound x i (name x c) (added_at i) (heap r) (fresh_Fit pos)
                s))))

  removals-Keeps : (rems : List Bytes) → Keeps Fits (apply_removals i rems r)
  unfolding apply_removals spent
  removals-Keeps [] = λ heap s. s
  removals-Keeps (n ∷ rems) =
      λ heap s. go (removals-Keeps rems) heap s (unspent_for_coin_name (heap r) n) refl
    where
      go :
          Keeps Fits (apply_removals i rems r)
          → (heap : Heap) → Fits heap
          → (o : Option Unspent) → unspent_for_coin_name (heap r) n ≡ o
          → Fits (apply_removals i (n ∷ rems) r heap).1
      go later heap s none e = rw e s
      go later heap s (some v) e = rw e (
          later (update r (set_unspent_for_coin_name n (spent v)) heap) (
            update-Fits (set_unspent_for_coin_name n (spent v)) heap (
              set_unspent_for_coin_name-IsSound x i n (spent v) (heap r)
                (spent_Fit v (s.entries n v e)) s)))

  pub apply_deltas-Keeps :
      (1 ≤ i) → (adds : List Coin) (rems : List Bytes) → Keeps Fits (apply_deltas x i adds rems r r)
  unfolding apply_deltas
  apply_deltas-Keeps pos adds rems =
      seq-Keeps Fits (apply_additions x i adds r r) (apply_removals i rems r)
        (additions-Keeps pos adds) (removals-Keeps rems)
