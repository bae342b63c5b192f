-- ===== src/Storage/Overlay.antt =====
-- storage/OverlayStorage.py and OverlayUnspentDB.py: the first source that has an answer gives it.
use ledger_sim.Prelude.{Option, none, some, List, [], ◌∷◌, Bytes}

-- One of several sources of answers to a hash or a coin name
abbrev pub Source : Type 0 → Type 0
Source V = Bytes → Option V

module _ {V : Type 0} where
  abbrev or_else : Option V → Option V → Option V
  or_else none o = o
  or_else (some v) o = some v

  -- `OverlayStorage(*db_list).hash_preimage`, `OverlayUnspentDB(*db_list).unspent_for_coin_name`
  unfoldable pub overlay : List (Source V) → Source V
  overlay [] k = none
  overlay (db ∷ dbs) k = or_else (db k) (overlay dbs k)
