-- ===== src/Ledger/Listing/Recent.antt =====
-- `do_get_recent_blocks` over a chain whose headers and bodies are in memory.
use ledger_sim.Prelude.{
  ℕ, zero, suc, ◌<◌, ◌≡◌, sym, ap, ◌∙◌, Bool, true, false, Bool-cases, ◌&&◌, ◌⊎◌, inl, inr, Option,
  some, List, [], ◌∷◌, ◌++◌, Bytes, bytes_eq, bytes_eq_iff, arith, if◌then◌else◌,
}
use mathlib.Core.List.{append_assoc, append-nil}
use mathlib.Core.Path.{subst}
use ledger_sim.Errors.{ok}
use ledger_sim.Externals.{Externals}
use ledger_sim.Atoms.HashPointer.{Storage}
use ledger_sim.Hashable.Blocks.{
  Body, Header, header, HeaderPointer, bare, held, hash_of, previous_hash, body_hash, header_obj,
}
use ledger_sim.Ledger.{genesis_hash}
use ledger_sim.Ledger.Listing.{is_first, header_eq, newer, recent_loop, get_recent_blocks}
use ledger_sim.Ledger.Listing.Chain.{IsChain, older_held, is_first_start, not_first}

-- Some header of the chain is equal to this one.
abbrev pub Contains : Header → HeaderPointer → Type 0
Contains most (bare hash) = ⊥
Contains most (held hash (header p s t q b e)) =
    (header_eq (header p s t q b e) most ≡ true) ⊎ Contains most p

-- the bodies of the blocks after this header, the oldest first
abbrev pub bodies_since : Header → HeaderPointer → List (Option Body)
bodies_since most (bare hash) = []
bodies_since most (held hash (header p s t q b e)) =
    if header_eq (header p s t q b e) most then [] else bodies_since most p ++ b.held ∷ []

-- Equal headers have equal previous hashes.
is_first-header_eq : (g h : Header) → header_eq g h ≡ true → is_first g ≡ is_first h
unfolding header_eq is_first
is_first-header_eq (header p s t q b e) (header p' s' t' q' b' e') same =
    ap (λ v. bytes_eq v genesis_hash)
      ((bytes_eq_iff (hash_of p) (hash_of p')).0
        (left_of (bytes_eq (hash_of p) (hash_of p')) _ same))
  where
    left_of : (c d : Bool) → (c && d) ≡ true → c ≡ true
    left_of c d h = ground arith

since_held :
    (most : Header) (hash : Bytes) (h : Header) (b : Body)
    → (body_hash h).held ≡ some b
    → bodies_since most (held hash h)
      ≡ (if header_eq h most then [] else bodies_since most (previous_hash h) ++ some b ∷ [])
since_held most hash (header p s t q b e) c held_body = rw held_body

Contains-held :
    (most : Header) (hash : Bytes) (h : Header)
    → Contains most (held hash h)
    → (header_eq h most ≡ true) ⊎ Contains most (previous_hash h)
Contains-held most hash (header p s t q b e) c = c

elsewhere : {P : Type 0} {t : Bool} → (t ≡ true) ⊎ P → t ≡ false → P
elsewhere (inl same) other = cc
elsewhere (inr p) other = p

module _ (x : Externals) (storage : Storage) (most : Header) (later : is_first most ≡ false) where
  newer_held :
      (h h' : Header) (b : Body) (hash : Bytes) (blocks : List (Option Body))
      → (body_hash h).held ≡ some b
      → previous_hash h ≡ held hash h'
      → is_first h' ≡ false
      → newer x storage h blocks ≡ ok (h', some b ∷ blocks)
  unfolding newer
  newer_held h h' b hash blocks e p f = rw (older_held x storage h h' b hash e p, f, newer)

  -- The first header is not the one that is looked for.
  not_there :
      (hash : Bytes) (h : Header) → IsChain 0 (previous_hash h) → Contains most (held hash h) → ⊥
  not_there hash h c found = elim (Contains-held most hash h found) [
    | inl same ↦
        absurd (
          true_false
            (sym (is_first_start x storage h c) ∙ (is_first-header_eq h most same ∙ later)))
    | inr p ↦ subst (Contains most) c p
  ]
    where
      true_false : true ≡ false → ⊥
      true_false e = cc

  goes_on :
      (n : ℕ) (hash : Bytes) (h : Header)
      → IsChain n (previous_hash h)
      → Contains most (held hash h)
      → is_first h ≡ false
  goes_on zero hash h c found = absurd (not_there hash h c found)
  goes_on (suc n) hash h c found = not_first x storage n h c

  recent_loop_lem :
      (n fuel : ℕ) (hash : Bytes) (h : Header) (b : Body) (blocks : List (Option Body))
      → (body_hash h).held ≡ some b
      → IsChain n (previous_hash h)
      → Contains most (held hash h)
      → n < fuel
      → recent_loop x storage fuel most h blocks
        ≡ some (ok (bodies_since most (held hash h) ++ blocks))
  unfolding recent_loop
  recent_loop_lem n zero hash h b blocks e c found f = absurd (omega arith)
  recent_loop_lem zero (suc fuel) hash h b blocks e c found f = absurd (not_there hash h c found)
  recent_loop_lem (suc n) (suc fuel) hash h b blocks e (hash', h', b', p, body, different, c) found
        f =
      let more = recent_loop_lem n fuel hash' h' b' (some b ∷ blocks) body c in
      elim (Bool-cases (header_eq h most)) [
        | inl same ↦ rw (since_held most hash h b e, same, recent_loop)
        | inr other ↦
            let there : Contains most (held hash' h') =
              subst (Contains most) p (elsewhere (Contains-held most hash h found) other) in
            rw
              (
                since_held most hash h b e,
                other,
                newer_held h h' b hash' blocks e p (goes_on n hash' h' c there),
                more there (omega arith),
                p,
                recent_loop,
              )
              (ap (λ l. some (ok l))
                (sym (append_assoc (bodies_since most (held hash' h')) (some b ∷ []) blocks)))
      ]

  -- Asked with a header of the chain that is not the first, `do_get_recent_blocks` returns, with fuel
  -- for each block, the bodies of the blocks after it, the oldest first.
  pub get_recent_blocks_lem :
      (n fuel : ℕ) (tip : HeaderPointer)
      → IsChain (suc n) tip
      → Contains most tip
      → n < fuel
      → get_recent_blocks x storage fuel tip most ≡ some (ok (bodies_since most tip))
  unfolding get_recent_blocks header_obj
  get_recent_blocks_lem n fuel tip (hash, h, b, p, body, different, c) found f =
      rw (p, recent_loop_lem n fuel hash h b [] body c (subst (Contains most) p found) f)
        (ap (λ l. some (ok l)) (append-nil (bodies_since most (held hash h))))
