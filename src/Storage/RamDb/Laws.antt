-- ===== src/Storage/RamDb/Laws.antt =====
-- The answers of RAM_DB and RAMUnspentDB, and `rollback_to_block`.
use ledger_sim.Prelude.{
  ℕ, ◌≤◌, ◌≡◌, refl, some, ◌↔◌, List, [], ◌∷◌, Bytes, bytes_eq, bytes_eq_iff, map, if◌then◌else◌,
  arith, All, elem,
}
use ledger_sim.Prelude.Dict.{Dict, lookup, lookup-insert}
use ledger_sim.Errors.{ok}
use ledger_sim.Externals.{Externals}
use ledger_sim.Hashable.Coin.{Coin, name, std_hash}
use ledger_sim.Hashable.Unspent.{Unspent}
use ledger_sim.Storage.RamDb.{
  RamDb, hash_preimage, add_preimage, rollback_values, rollback_to_block, ram_unspent_db,
}

-- Every blob stands under its hash.
pub record IsHonest (x : Externals) (db : RamDb) : Type 0 where
  pub at : (h blob : Bytes) → hash_preimage db h ≡ some blob → std_hash x blob ≡ h

module _ (x : Externals) where
  -- A database in which every blob stands under its hash stays so when a blob is added.
  pub add_preimage-IsHonest :
      (blob : Bytes) (db : RamDb) → IsHonest x db → IsHonest x (add_preimage x blob db)
  unfolding add_preimage hash_preimage
  add_preimage-IsHonest blob db honest = record {
    at = λ h b e. ground (
      arith,
      bytes_eq_iff (std_hash x blob) h,
      lookup-insert (std_hash x blob) h blob db.preimage_db,
      honest.at h b,
    );
  }

  -- A blob that was added is found under its hash, and every other hash answers as before.
  pub hash_preimage-add_preimage :
      (blob h : Bytes) (db : RamDb)
      → hash_preimage (add_preimage x blob db) h
        ≡ (if bytes_eq (std_hash x blob) h then some blob else hash_preimage db h)
  unfolding add_preimage hash_preimage
  hash_preimage-add_preimage blob h db = lookup-insert (std_hash x blob) h blob db.preimage_db

-- Nothing in the database is later than the block.
abbrev pub IsUpTo : ℕ → Dict Unspent → Type 0
IsUpTo b d = All (λ e. (e.1.spent_block_index ≤ b) × (e.1.confirmed_block_index ≤ b)) d

rollback_values_iff :
    (b : ℕ) (d : Dict Unspent)
    → ((rollback_values b d ≡ ok tt) → IsUpTo b d) × (IsUpTo b d → rollback_values b d ≡ ok tt)
unfolding rollback_values
rollback_values_iff b [] = (λ e. tt, λ h. refl)
rollback_values_iff b ((n, v) ∷ d) =
    let (to, from) = rollback_values_iff b d in
    (λ e. ground (arith, to), λ h. ground (arith, from h.1))

-- A rollback never changes the database, and returns exactly if nothing was to be rolled back.
pub rollback_to_block_iff :
    (b : ℕ) (db : RamDb)
    → ((rollback_to_block b db).1 ≡ db)
      × (((rollback_to_block b db).0 ≡ ok tt) ↔ IsUpTo b db.unspent_db)
unfolding rollback_to_block
rollback_to_block_iff b db = (refl, rollback_values_iff b db.unspent_db)

-- A coin of the additions is confirmed at the block and unspent, any other name is as it was.
pub lookup-ram_unspent_db :
    (x : Externals) (additions : List Coin) (i : ℕ) (d : Dict Unspent) (n : Bytes)
    → lookup n (ram_unspent_db x additions i d) ≡ (
        if elem n (map (name x) additions)
        then some (record { confirmed_block_index = i; spent_block_index = 0 })
        else lookup n d)
unfolding ram_unspent_db elem
lookup-ram_unspent_db x [] i d n = refl
lookup-ram_unspent_db x (c ∷ cs) i d n = rw (lookup-ram_unspent_db x cs i _ n) (
    ground (
      arith,
      bytes_eq_iff n (name x c),
      bytes_eq_iff (name x c) n,
      lookup-insert (name x c) n (record { confirmed_block_index = i; spent_block_index = 0 }) d,
    ))
