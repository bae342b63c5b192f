-- ===== src/Ledger/Listing.antt =====
-- do_get_all_blocks and do_get_recent_blocks of ledger/ledger_api.py. They walk from the tip to older
-- headers; fuel bounds the walk, and `none` means that it ran out. A list that is appended to and
-- reversed at the end is built here from its end.
pub mod Chain
pub mod Recent
use ledger_sim.Prelude.{
  ℕ, zero, suc, Bool, true, false, ◌&&◌, ◌==◌, Option, none, some, List, [], ◌∷◌, Bytes, bytes_eq,
}
use ledger_sim.Errors.{Res, ok, raise, or_raise, attribute_error, ◌>>=◌}
use ledger_sim.Externals.{Externals}
use ledger_sim.Atoms.HashPointer.{Storage}
use ledger_sim.Hashable.Blocks.{
  Body, Header, header, HeaderPointer, hash_of, previous_hash, body_hash, header_obj, body_obj,
}
use ledger_sim.Ledger.{genesis_hash}

-- `==` of the dataclass
unfoldable pub header_eq : Header → Header → Bool
header_eq (header p s t q b e) (header p' s' t' q' b' e') =
    bytes_eq (hash_of p) (hash_of p')
    && (bytes_eq s.val s'.val
        && (t == t' && (bytes_eq q.hash q'.hash && (bytes_eq b.hash b'.hash && bytes_eq e e'))))

-- `h.previous_hash == bytes([0] * 32)`
unfoldable pub is_first : Header → Bool
is_first h = bytes_eq (hash_of (previous_hash h)) genesis_hash

-- A walk that may run out of fuel
abbrev pub Walk : Type 0
Walk = Option (Res (List (Option Body)))

module _ (x : Externals) (storage : Storage) where
  -- the header before, and an AttributeError where it is used although there is none
  unfoldable pub previous : Header → Res Header
  previous h = do found ← header_obj x storage (previous_hash h); or_raise attribute_error found

  unfoldable pub body_of : Header → Res (Option Body)
  body_of h = body_obj x storage (body_hash h)

  -- the round of the loop of `do_get_all_blocks`
  unfoldable pub older : Header → Res (Option Body × Header)
  older h = do b ← body_of h; h' ← previous h; ok (b, h')

  unfoldable pub all_loop : ℕ → Header → List (Option Body) → Walk
  all_loop zero h blocks = none
  all_loop (suc fuel) h blocks = elim (older h) [
    | raise e ↦ some (raise e)
    | ok (b, h') ↦ elim (is_first h') [
      | true ↦ some (do b' ← body_of h'; ok (b' ∷ b ∷ blocks))
      | false ↦ all_loop fuel h' (b ∷ blocks)
    ]
  ]

  unfoldable pub get_all_blocks : ℕ → HeaderPointer → Walk
  get_all_blocks fuel tip_hash =
      elim (do found ← header_obj x storage tip_hash; or_raise attribute_error found) [
        | raise e ↦ some (raise e)
        | ok h ↦ elim (is_first h) [
          | true ↦ some (do b ← body_of h; ok (b ∷ []))
          | false ↦ all_loop fuel h []
        ]
      ]

  -- the round of the loop of `do_get_recent_blocks`; the first block's body is added when the walk
  -- arrives there
  unfoldable pub arrive : Bool → Header → List (Option Body) → Res (Header × List (Option Body))
  arrive true h blocks = do b ← body_of h; ok (h, b ∷ blocks)
  arrive false h blocks = ok (h, blocks)

  unfoldable pub newer : Header → List (Option Body) → Res (Header × List (Option Body))
  unfolding arrive
  newer h blocks = do (b, h') ← older h; arrive (is_first h') h' (b ∷ blocks)

  unfoldable pub recent_loop : ℕ → Header → Header → List (Option Body) → Walk
  recent_loop zero most_recent h blocks = none
  recent_loop (suc fuel) most_recent h blocks = elim (header_eq h most_recent) [
    | true ↦ some (ok blocks)
    | false ↦ elim (newer h blocks) [
      | raise e ↦ some (raise e)
      | ok (h', blocks') ↦ recent_loop fuel most_recent h' blocks'
    ]
  ]

  unfoldable pub get_recent_blocks : ℕ → HeaderPointer → Header → Walk
  get_recent_blocks fuel tip_hash most_recent =
      elim (do found ← header_obj x storage tip_hash; or_raise attribute_error found) [
        | raise e ↦ some (raise e)
        | ok h ↦ recent_loop fuel most_recent h []
      ]
