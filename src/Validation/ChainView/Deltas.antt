-- ===== src/Validation/ChainView/Deltas.antt =====
-- What `apply_deltas` does to the databases, where its two parameters are one database, as a ledger
-- calls it.
use ledger_sim.Prelude.{
  ℕ, ◌≡◌, ◌≢◌, refl, sym, ap, ◌∙◌, ◌||◌, ◌⊎◌, inl, inr, Bool, true, false, Option, none, some, List,
  [], ◌∷◌, Bytes, bytes_eq, bytes_eq_iff, elem, map, All, All-map, ◌==◌, ==_iff, if◌then◌else◌,
  arith, Bool-cases,
}
use mathlib.Core.Path.{subst}
use ledger_sim.Prelude.Dict.{lookup, lookup-insert}
use ledger_sim.Errors.{ok}
use ledger_sim.Externals.{Externals}
use ledger_sim.Hashable.Coin.{Coin, name, coin_bytes}
use ledger_sim.Hashable.Unspent.{Unspent}
use ledger_sim.Storage.RamDb.{RamDb, add_preimage, unspent_for_coin_name, set_unspent_for_coin_name}
use ledger_sim.Storage.Heap.{Ref, Heap, update, seq-ok}
use ledger_sim.Validation.ChainView.{apply_additions, apply_removals, apply_deltas}

pub update_self : (r : Ref) (f : RamDb → RamDb) (heap : Heap) → update r f heap r ≡ f (heap r)
update_self r f heap = rw ((==_iff r r).1 refl)

pub update_ne : (r q : Ref) (f : RamDb → RamDb) (heap : Heap) → r ≢ q → update r f heap q ≡ heap q
update_ne r q f heap ne = elim (Bool-cases (r == q)) [
  | inl same ↦ absurd (ne ((==_iff r q).0 same))
  | inr other ↦ rw other
]

-- The entry of a coin that a block at this index has added
abbrev pub added_at : ℕ → Unspent
added_at i = record { confirmed_block_index = i; spent_block_index = 0 }

-- The entry of a coin that a block at this index has spent
abbrev pub spent_at : ℕ → Option Unspent → Option Unspent
spent_at i none = none
spent_at i (some u) =
    some (record { confirmed_block_index = u.confirmed_block_index; spent_block_index = i })

module _ (x : Externals) (i : ℕ) (r : Ref) where
  abbrev pub entry : Heap → Bytes → Option Unspent
  entry heap n = unspent_for_coin_name (heap r) n

  -- one addition, where the two databases are one
  after_one :
      (c : Coin) (heap : Heap) (n : Bytes)
      → entry
          (update r
            (add_preimage x (coin_bytes x c))
            (update r (set_unspent_for_coin_name (name x c) (added_at i)) heap))
          n
        ≡ (if bytes_eq (name x c) n then some (added_at i) else entry heap n)
  unfolding unspent_for_coin_name set_unspent_for_coin_name add_preimage
  after_one c heap n =
      rw ((==_iff r r).1 refl, lookup-insert (name x c) n (added_at i) (heap r).unspent_db)

  pub apply_additions_lem :
      (adds : List Coin) (heap : Heap)
      → ((apply_additions x i adds r r heap).0 ≡ ok tt)
        × ((n : Bytes)
            → entry (apply_additions x i adds r r heap).1 n
              ≡ (if elem n (map (name x) adds) then some (added_at i) else entry heap n))
  unfolding apply_additions elem
  apply_additions_lem [] heap = (refl, λ n. refl)
  apply_additions_lem (c ∷ adds) heap =
      let heap' : Heap =
        update r (add_preimage x (coin_bytes x c))
          (update r (set_unspent_for_coin_name (name x c) (added_at i)) heap) in
      let (done, known) = apply_additions_lem adds heap' in
      (
        done,
        λ n.
            known n
            ∙ pick n (name x c) (elem n (map (name x) adds)) (entry heap' n) (entry heap n)
                (after_one c heap n),
      )
    where
      pick :
          (n m : Bytes) (later : Bool) (o o' : Option Unspent)
          → o ≡ (if bytes_eq m n then some (added_at i) else o')
          → (if later then some (added_at i) else o)
            ≡ (if bytes_eq n m || later then some (added_at i) else o')
      pick n m later o o' e = ground (arith, bytes_eq_iff n m, bytes_eq_iff m n)

  pub after_removal :
      (m : Bytes) (u : Unspent) (heap : Heap) (n : Bytes)
      → entry heap m ≡ some u
      → entry
          (update r
            (set_unspent_for_coin_name m
              (record { confirmed_block_index = u.confirmed_block_index; spent_block_index = i }))
            heap)
          n
        ≡ (if bytes_eq m n then spent_at i (entry heap n) else entry heap n)
  unfolding unspent_for_coin_name set_unspent_for_coin_name
  after_removal m u heap n known = elim (Bool-cases (bytes_eq m n)) [
    | inl same ↦ rw (
      (==_iff r r).1 refl,
      lookup-insert m n
          (record { confirmed_block_index = u.confirmed_block_index; spent_block_index = i })
          (heap r).unspent_db,
      same,
      subst (λ k. lookup k (heap r).unspent_db ≡ some u) ((bytes_eq_iff m n).0 same) known,
    )
    | inr other ↦ rw (
      (==_iff r r).1 refl,
      lookup-insert m n
          (record { confirmed_block_index = u.confirmed_block_index; spent_block_index = i })
          (heap r).unspent_db,
      other,
    )
  ]

  -- Each name is in the database.
  abbrev Known : Heap → List Bytes → Type 0
  Known heap ns = All (λ n. (u : Unspent) × (entry heap n ≡ some u)) ns

  still-Known :
      (m : Bytes) (u : Unspent) (heap : Heap) (ns : List Bytes)
      → entry heap m ≡ some u
      → Known heap ns
      → Known
          (update r
            (set_unspent_for_coin_name m
              (record { confirmed_block_index = u.confirmed_block_index; spent_block_index = i }))
            heap)
          ns
  still-Known m u heap ns known k =
      All-map ns
        (λ n (v, e). after (bytes_eq m n) v (entry heap n) e (after_removal m u heap n known)) k
    where
      after :
          (b : Bool) (v : Unspent) (o : Option Unspent) {o' : Option Unspent}
          → o ≡ some v
          → o' ≡ (if b then spent_at i o else o)
          → (w : Unspent) × (o' ≡ some w)
      after true v o e p = (
        record { confirmed_block_index = v.confirmed_block_index; spent_block_index = i },
        p ∙ ap (spent_at i) e,
      )
      after false v o e p = (v, p ∙ e)

  apply_removals_lem :
      (rems : List Bytes) (heap : Heap)
      → Known heap rems
      → ((apply_removals i rems r heap).0 ≡ ok tt)
        × ((n : Bytes)
            → entry (apply_removals i rems r heap).1 n
              ≡ (if elem n rems then spent_at i (entry heap n) else entry heap n))
  unfolding apply_removals elem
  apply_removals_lem [] heap k = (refl, λ n. refl)
  apply_removals_lem (m ∷ rems) heap ((u, e), k) =
      let heap' : Heap =
        update r
          (set_unspent_for_coin_name m
            (record { confirmed_block_index = u.confirmed_block_index; spent_block_index = i }))
          heap in
      let (done, known) = apply_removals_lem rems heap' (still-Known m u heap rems e k) in
      rw e (
        done,
        λ n.
            known n
            ∙ pick n m (elem n rems) (entry heap' n) (entry heap n) (after_removal m u heap n e),
      )
    where
      pick :
          (n m : Bytes) (later : Bool) (o o' : Option Unspent)
          → o ≡ (if bytes_eq m n then spent_at i o' else o')
          → (if later then spent_at i o else o)
            ≡ (if bytes_eq n m || later then spent_at i o' else o')
      pick n m later o o' e = ground (arith, bytes_eq_iff n m, bytes_eq_iff m n)

module _ (x : Externals) (i : ℕ) (r : Ref) where
  -- A removed coin is in the database or is added by the block itself.
  abbrev pub IsKnown : Heap → List Coin → Bytes → Type 0
  IsKnown heap adds n =
      (elem n (map (name x) adds) ≡ true)
      ⊎ ((u : Unspent) × (unspent_for_coin_name (heap r) n ≡ some u))

  -- The database after the block, for one name: first the additions, then the removals
  abbrev pub marked : List Coin → List Bytes → Heap → Bytes → Option Unspent
  marked adds rems heap n =
      let o =
        if elem n (map (name x) adds)
        then some (added_at i)
        else unspent_for_coin_name (heap r) n in
      if elem n rems then spent_at i o else o

  known_after :
      (adds : List Coin) (heap : Heap) (n : Bytes)
      → IsKnown heap adds n
      → (u : Unspent) × (unspent_for_coin_name ((apply_additions x i adds r r heap).1 r) n ≡ some u)
  known_after adds heap n (inl added) =
      (added_at i, (apply_additions_lem x i r adds heap).1 n ∙ rw added)
  known_after adds heap n (inr (u, e)) = elim (Bool-cases (elem n (map (name x) adds))) [
    | inl added ↦ (added_at i, (apply_additions_lem x i r adds heap).1 n ∙ rw added)
    | inr other ↦ (u, (apply_additions_lem x i r adds heap).1 n ∙ rw other e)
  ]

  -- Where the unspent database is the storage too, and every removed coin is known, the update
  -- succeeds, and the entry of every coin is as it was, but that added coins are confirmed at the
  -- block, and removed coins are spent at it.
  pub apply_deltas_lem :
      (adds : List Coin) (rems : List Bytes) (heap : Heap)
      → All (IsKnown heap adds) rems
      → ((apply_deltas x i adds rems r r heap).0 ≡ ok tt)
        × ((n : Bytes)
            → unspent_for_coin_name ((apply_deltas x i adds rems r r heap).1 r) n
              ≡ marked adds rems heap n)
  unfolding apply_deltas
  apply_deltas_lem adds rems heap known =
      let (done, entries) = apply_additions_lem x i r adds heap in
      let (done', entries') =
        apply_removals_lem x i r rems (apply_additions x i adds r r heap).1
          (All-map rems (known_after adds heap) known) in
      subst
        (λ t.
          (t.0 ≡ ok tt) × ((n : Bytes) → unspent_for_coin_name (t.1 r) n ≡ marked adds rems heap n))
        (sym (seq-ok (apply_removals i rems r) (apply_additions x i adds r r) heap done))
        (done', λ n. entries' n ∙ ap (λ o. if elem n rems then spent_at i o else o) (entries n))
