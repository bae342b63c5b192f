-- ===== src/Hashable/BlsSignature.antt =====
-- hashable/BLSSignature.py: BLS signatures, with blspy's own operations as parameters.
use ledger_sim.Prelude.{
  Bool, true, false, List, [], ◌∷◌, Bytes, bytes_eq, replicate, map, if◌then◌else◌,
}
use ledger_sim.Errors.{Res, ok, raise, map_res, ◌>>=◌}
use ledger_sim.Externals.{Externals}
use ledger_sim.Hashable.Message.{AggsigPair}
use ledger_sim.Atoms.Codec.{Codec, streamable}
use ledger_sim.Atoms.SizedBytes.{sized, bytes96}

abbrev pub zero96 : Bytes
zero96 = replicate 96 0

pub record BlsSignature : Type 0 where
  pub sig : Bytes

unfoldable pub bls_codec : Codec BlsSignature
unfolding streamable
bls_codec = streamable (λ (v : Bytes). record { sig = v }) (λ (s : BlsSignature). s.sig) bytes96

-- `aggsig_pair(public_key, message_hash)`, which casts its two arguments
unfoldable pub aggsig_pair : Bytes → Bytes → Res AggsigPair
unfolding sized
aggsig_pair pk mh = do
  k ← sized 48 pk
  h ← sized 32 mh
  ok (record { public_key = k; message_hash = h })

-- `[_ for _ in sigs if _.sig != ZERO96]`
unfoldable pub nonzero : List BlsSignature → List BlsSignature
nonzero [] = []
nonzero (s ∷ ss) = let kept = nonzero ss in if bytes_eq s.sig zero96 then kept else s ∷ kept

module _ (x : Externals) where
  open x use {PrependSignature, PublicKey}

  -- the `else` branch of `aggregate`
  unfoldable pub aggregate_nonzero : List BlsSignature → Res Bytes
  aggregate_nonzero [] = ok zero96
  aggregate_nonzero (s ∷ ss) = do
    wrapped_sigs ← map_res (λ (t : BlsSignature). x.signature_from_bytes t.sig) (s ∷ ss)
    total ← x.aggregate wrapped_sigs
    ok (x.serialize total)

  unfoldable pub aggregate : List BlsSignature → Res BlsSignature
  unfolding nonzero aggregate_nonzero sized
  aggregate sigs = do
    sig ← aggregate_nonzero (nonzero sigs)
    v ← sized 96 sig
    ok (record { sig = v })

  -- `except Exception as ex: return False`
  unfoldable pub or_false : Res Bool → Bool
  or_false (ok b) = b
  or_false (raise e) = false

  -- `validate`. The keys are read outside the `try`.
  unfoldable pub validate : BlsSignature → List AggsigPair → Res Bool
  unfolding or_false
  validate s [] = ok true
  validate s (p ∷ ps) = do
    let message_hashes = map (λ (q : AggsigPair). q.message_hash) (p ∷ ps)
    public_keys ← map_res (λ (q : AggsigPair). x.public_key_from_bytes q.public_key) (p ∷ ps)
    ok (
        or_false (do
          signature ← x.signature_from_bytes s.sig
          x.verify signature message_hashes public_keys))
