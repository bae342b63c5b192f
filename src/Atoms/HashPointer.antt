-- ===== src/Atoms/HashPointer.antt =====
-- atoms/hash_pointer.py: a hash, with the object that it was made from where there was one.
use ledger_sim.Prelude.{Option, none, some, Bytes, bytes_eq, if◌then◌else◌}
use ledger_sim.Errors.{Res, ok, ◌>>=◌}

-- A data source's `hash_preimage`
abbrev pub Storage : Type 0
Storage = Bytes → Option Bytes

module _ {T : Type 0} where
  -- The object with a given hash, from the blob that the data source has for the hash: a blob that
  -- does not hash to it is ignored.
  unfoldable pub checked_preimage :
      (Bytes → Bytes) → (Bytes → Res T) → Bytes → Option Bytes → Res (Option T)
  checked_preimage hash_f from_bytes h none = ok none
  checked_preimage hash_f from_bytes h (some blob) =
      if bytes_eq (hash_f blob) h then (do v ← from_bytes blob; ok (some v)) else ok none

-- `r` and `r._obj`
pub record HashPointer (T : Type 0) : Type 0 where
  pub hash : Bytes
  pub held : Option T

module _ {T : Type 0} where
  -- `__new__` of an instance, given `bytes(v)`
  unfoldable pub pointer_to : (Bytes → Bytes) → (T → Res Bytes) → T → Res (HashPointer T)
  pointer_to hash_f to_bytes v = do
    blob ← to_bytes v
    ok (record { hash = hash_f blob; held = some v })

  -- `obj`
  unfoldable pub obj : (Bytes → Bytes) → (Bytes → Res T) → Storage → HashPointer T → Res (Option T)
  unfolding checked_preimage
  obj hash_f from_bytes storage p = elim p.held [
    | some v ↦ ok (some v)
    | none ↦ checked_preimage hash_f from_bytes p.hash (storage p.hash)
  ]
