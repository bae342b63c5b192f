-- ===== src/Storage/RamDb.antt =====
-- storage/RAM_DB.py, the storage of a ledger, and storage/RAMUnspentDB.py.
pub mod Laws
use ledger_sim.Prelude.{
  ℕ, ◌≡◌, refl, Bool, true, false, Option, none, some, List, [], ◌∷◌, Bytes, ltb, if◌then◌else◌,
  map,
}
use ledger_sim.Prelude.Dict.{Dict, lookup, insert}
use ledger_sim.Errors.{Res, ok, raise, frozen_instance_error, ◌>>=◌}
use ledger_sim.Externals.{Externals}
use ledger_sim.Hashable.Coin.{Coin, name, std_hash}
use ledger_sim.Hashable.Unspent.{Unspent}

pub record RamDb : Type 0 where
  pub preimage_db : Dict Bytes
  pub unspent_db : Dict Unspent

-- `RAM_DB()`
abbrev pub empty : RamDb
empty = record { preimage_db = []; unspent_db = [] }

unfoldable pub hash_preimage : RamDb → Bytes → Option Bytes
hash_preimage db hash = lookup hash db.preimage_db

unfoldable pub add_preimage : Externals → Bytes → RamDb → RamDb
add_preimage x blob db = record db { preimage_db = insert (std_hash x blob) blob db.preimage_db }

unfoldable pub unspent_for_coin_name : RamDb → Bytes → Option Unspent
unspent_for_coin_name db coin_name = lookup coin_name db.unspent_db

unfoldable pub set_unspent_for_coin_name : Bytes → Unspent → RamDb → RamDb
set_unspent_for_coin_name coin_name unspent db = record db {
  unspent_db = insert coin_name unspent db.unspent_db;
}

unfoldable pub all_unspents : RamDb → List (Bytes × Unspent)
all_unspents db = db.unspent_db

-- the loop of `rollback_to_block`: an `Unspent` is a frozen dataclass, so each assignment raises
unfoldable pub rollback_values : ℕ → Dict Unspent → Res (Unit {0})
rollback_values block_index [] = ok tt
rollback_values block_index ((n, v) ∷ d) =
    if ltb block_index v.spent_block_index
    then raise frozen_instance_error
    else if ltb block_index v.confirmed_block_index
    then raise frozen_instance_error
    else rollback_values block_index d

-- What it does to the database is nothing, whether it returns or raises.
unfoldable pub rollback_to_block : ℕ → RamDb → Res (Unit {0}) × RamDb
unfolding rollback_values
rollback_to_block block_index db = (rollback_values block_index db.unspent_db, db)

-- `RAMUnspentDB(additions, confirmed_block_index)`
unfoldable pub ram_unspent_db : Externals → List Coin → ℕ → Dict Unspent → Dict Unspent
ram_unspent_db x [] index d = d
ram_unspent_db x (c ∷ additions) index d =
    ram_unspent_db x additions index
      (insert (name x c) (record { confirmed_block_index = index; spent_block_index = 0 }) d)
