-- ===== src/Ledger/Listing/Chain.antt =====
-- The walks over a chain whose headers and bodies are in memory, as a ledger holds them.
use ledger_sim.Prelude.{
  ℕ, zero, suc, ◌≤◌, ◌<◌, ◌≡◌, ◌≢◌, sym, ap, true, false, Option, some, List, [], ◌∷◌, ◌++◌, Bytes,
  bytes_eq-of_ne, bytes_eq_refl, arith,
}
use mathlib.Core.List.{append_assoc}
use ledger_sim.Errors.{ok}
use ledger_sim.Externals.{Externals}
use ledger_sim.Atoms.HashPointer.{Storage, obj}
use ledger_sim.Hashable.Blocks.{
  Body, Header, header, HeaderPointer, bare, held, previous_hash, body_hash, header_obj, body_obj,
}
use ledger_sim.Ledger.{genesis_hash}
use ledger_sim.Ledger.Listing.{is_first, previous, body_of, older, all_loop, get_all_blocks}

-- A chain of this many blocks: each header holds the one before and its body, and no header has the
-- genesis hash.
abbrev pub IsChain : ℕ → HeaderPointer → Type 0
IsChain zero p = p ≡ bare genesis_hash
IsChain (suc n) p =
    (hash : Bytes) × (h : Header) × (b : Body) × (p ≡ held hash h)
    × ((body_hash h).held ≡ some b)
    × (hash ≢ genesis_hash)
    × IsChain n (previous_hash h)

-- the bodies of a chain, the oldest first
abbrev pub bodies : HeaderPointer → List (Option Body)
bodies (bare hash) = []
bodies (held hash (header p s t q b e)) = bodies p ++ b.held ∷ []

bodies_held :
    (hash : Bytes) (h : Header) (b : Body)
    → (body_hash h).held ≡ some b
    → bodies (held hash h) ≡ bodies (previous_hash h) ++ some b ∷ []
bodies_held hash (header p s t q b e) c held_body = rw held_body

module _ (x : Externals) (storage : Storage) where
  pub body_of_held :
      (h : Header) (b : Body) → (body_hash h).held ≡ some b → body_of x storage h ≡ ok (some b)
  unfolding body_of body_obj obj
  body_of_held (header p s t q b' e') b e = rw e

  pub older_held :
      (h h' : Header) (b : Body) (hash : Bytes)
      → (body_hash h).held ≡ some b
      → previous_hash h ≡ held hash h'
      → older x storage h ≡ ok (some b, h')
  unfolding older previous header_obj
  older_held h h' b hash e p = rw (body_of_held h b e, p)

  pub is_first_start : (h : Header) → IsChain 0 (previous_hash h) → is_first h ≡ true
  unfolding is_first
  is_first_start h c = rw c (bytes_eq_refl genesis_hash)

  pub not_first : (n : ℕ) (h : Header) → IsChain (suc n) (previous_hash h) → is_first h ≡ false
  unfolding is_first
  not_first n h (hash, h', b, p, body, different, c) =
      rw p (bytes_eq-of_ne hash genesis_hash different)

  all_loop_lem :
      (n fuel : ℕ) (h : Header) (b : Body) (blocks : List (Option Body))
      → (body_hash h).held ≡ some b
      → IsChain (suc n) (previous_hash h)
      → n < fuel
      → all_loop x storage fuel h blocks ≡ some (ok (bodies (previous_hash h) ++ some b ∷ blocks))
  unfolding all_loop
  all_loop_lem n zero h b blocks e c f = absurd (omega arith)
  all_loop_lem zero (suc fuel) h b blocks e (hash, h', b', p, body, different, c) f = rw (
    older_held h h' b hash e p,
    is_first_start h' c,
    body_of_held h' b' body,
    p,
    bodies_held hash h' b' body,
    c,
    all_loop,
  )
  all_loop_lem (suc n) (suc fuel) h b blocks e (hash, h', b', p, body, different, c) f =
      rw
        (
          older_held h h' b hash e p,
          not_first n h' c,
          all_loop_lem n fuel h' b' (some b ∷ blocks) body c (omega arith),
          p,
          bodies_held hash h' b' body,
          all_loop,
        )
        (ap (λ l. some (ok l))
          (sym (append_assoc (bodies (previous_hash h')) (some b' ∷ []) (some b ∷ blocks))))

  -- From a chain of at least one block, with fuel for each, `do_get_all_blocks` returns the bodies
  -- of all its blocks, the oldest first.
  pub get_all_blocks_lem :
      (n fuel : ℕ) (tip : HeaderPointer)
      → IsChain (suc n) tip
      → n ≤ fuel
      → get_all_blocks x storage fuel tip ≡ some (ok (bodies tip))
  unfolding get_all_blocks header_obj
  get_all_blocks_lem zero fuel tip (hash, h, b, p, body, different, c) f =
      rw
        (p, is_first_start h c, body_of_held h b body, bodies_held hash h b body, c, get_all_blocks)
  get_all_blocks_lem (suc n) fuel tip (hash, h, b, p, body, different, c) f = rw (
    p,
    not_first n h c,
    all_loop_lem n fuel h b [] body c (omega arith),
    bodies_held hash h b body,
    get_all_blocks,
  )
