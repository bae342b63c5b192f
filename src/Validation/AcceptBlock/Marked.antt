-- ===== src/Validation/AcceptBlock/Marked.antt =====
-- An unspent database that has been marked with a block at the index after the tip, as `apply_deltas` of
-- validation/chainview.py marks it, and what it answers for the coins that the block spends.
use ledger_sim.Prelude.{
  ℕ, ◌+◌, ◌≡◌, refl, sym, ◌∙◌, true, none, some, List, [], Bytes, elem, map, if◌then◌else◌, arith,
  inl, inr, Bool-cases, ◌⊎◌, ◌<◌,
}
use ledger_sim.Externals.{Externals}
use ledger_sim.Hashable.Coin.{Coin, name}
use ledger_sim.Hashable.Unspent.{Unspent}
use ledger_sim.Storage.Overlay.{Source, overlay}
use ledger_sim.Storage.RamDb.Laws.{lookup-ram_unspent_db}
use ledger_sim.Validation.ChainView.Deltas.{added_at, spent_at}
use ledger_sim.Validation.AcceptBlock.{Cpc, is_added, Tip}
use ledger_sim.Validation.AcceptBlock.Spent.{FromChain, answer}

module _ (x : Externals) (adds : List Coin) (rems : List Bytes) where
  abbrev added_names : List Bytes
  added_names = map (name x) adds

  -- a database that has been marked with the additions and removals of a block at this index
  abbrev pub marked_db : ℕ → Source Unspent → Source Unspent
  marked_db i db n =
      let o = if elem n added_names then some (added_at i) else db n in
      if elem n rems then spent_at i o else o

  -- the tip, with this database
  abbrev pub marked_tip : Tip → Tip
  marked_tip tip = record tip { unspent_db = marked_db (tip.tip_index + 1) tip.unspent_db }

  -- The name of a spent coin tells whether the block adds the coin, and a coin that it adds has no entry yet.
  pub record IsClear (db : Source Unspent) (c : Coin) : Type 0 where
    pub told : is_added c adds ≡ elem (name x c) added_names
    pub fresh : is_added c adds ≡ true → db (name x c) ≡ none

  kept_index :
      (i : ℕ) (n : Bytes) (u : Unspent)
      → (u' : Unspent) × ((if elem n rems then spent_at i (some u) else some u) ≡ some u')
        × (u'.confirmed_block_index ≡ u.confirmed_block_index)
        × ((u'.spent_block_index ≡ u.spent_block_index) ⊎ (u'.spent_block_index ≡ i))
  kept_index i n u = elim (Bool-cases (elem n rems)) [
    | inl removed ↦ (_, rw removed refl, refl, inr refl)
    | inr other ↦ (u, rw other refl, refl, inl refl)
  ]

  module _ (tip : Tip) (c : Cpc) (clear : IsClear tip.unspent_db c.coin) where
    pub FromChain-marked : FromChain x tip adds c → FromChain x (marked_tip tip) adds c
    FromChain-marked before other =
        let (u, e, unspent) = before other in
        let i : ℕ = tip.tip_index + 1 in
        let (u', marked, index, spent) = kept_index i (name x c.coin) u in
        (
          u',
          rw (sym clear.told ∙ other, e) marked,
          record {
            confirmed = omega (arith, index, unspent.confirmed);
            not_later = omega (arith, index, unspent.not_later);
            not_spent = still u u' unspent.not_spent spent;
          },
        )
      where
        still :
            (u u' : Unspent)
            → (u.spent_block_index ≡ 0) ⊎ (tip.tip_index < u.spent_block_index)
            → (u'.spent_block_index ≡ u.spent_block_index)
              ⊎ (u'.spent_block_index ≡ tip.tip_index + 1)
            → (u'.spent_block_index ≡ 0) ⊎ (tip.tip_index < u'.spent_block_index)
        still u u' (inl zero) (inl same) = inl (same ∙ zero)
        still u u' (inr later) (inl same) = inr (omega (arith, later, same))
        still u u' before (inr now) = inr (omega (arith, now))

    -- The overlay answers for the coin with one index, before and after.
    pub answers-same :
        FromChain x tip adds c
        → (u : Unspent) × (u' : Unspent) × (answer x tip adds (name x c.coin) ≡ some u)
          × (answer x (marked_tip tip) adds (name x c.coin) ≡ some u')
          × (u.confirmed_block_index ≡ u'.confirmed_block_index)
    unfolding overlay
    answers-same before = elim (Bool-cases (is_added c.coin adds)) [
      | inl added ↦
          let i : ℕ = tip.tip_index + 1 in
          let (u', marked, index, spent) = kept_index i (name x c.coin) (added_at i) in
          (
            added_at i,
            u',
            rw
                (
                  clear.fresh added,
                  lookup-ram_unspent_db x adds i [] (name x c.coin),
                  sym clear.told ∙ added,
                )
                refl,
            rw (sym clear.told ∙ added, marked) refl,
            sym index,
          )
      | inr other ↦
          let (u, e, unspent) = before other in
          let (u', marked, index, spent) = kept_index (tip.tip_index + 1) (name x c.coin) u in
          (u, u', rw e refl, rw (sym clear.told ∙ other, e, marked) refl, sym index)
    ]
