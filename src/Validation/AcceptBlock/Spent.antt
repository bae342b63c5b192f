-- ===== src/Validation/AcceptBlock/Spent.antt =====
-- The loop of `accept_new_block` that looks the spent coins up in the unspent database.
use ledger_sim.Prelude.{
  ℕ, ◌+◌, ◌≤◌, ◌<◌, ◌≡◌, refl, ◌∙◌, Bool, true, false, ◌||◌, ◌⊎◌, ◌↔◌, Option, none, some, List, [],
  ◌∷◌, Bytes, bytes_eq, bytes_eq_iff, bytes_eq_refl, elem, map, if◌then◌else◌, arith, All, All-map,
  All-elem-map, Bool-cases, Option-cases, inl, inr,
}
use ledger_sim.Prelude.Dict.{Dict, lookup, insert, lookup-insert}
use ledger_sim.Errors.{ok, for_each, for_each_iff}
use ledger_sim.Externals.{Externals}
use ledger_sim.Hashable.Coin.{Coin, name}
use ledger_sim.Hashable.Unspent.{Unspent}
use ledger_sim.Storage.RamDb.{ram_unspent_db}
use ledger_sim.Storage.RamDb.Laws.{lookup-ram_unspent_db}
use ledger_sim.Storage.Overlay.{Source, overlay}
use ledger_sim.Validation.AcceptBlock.{
  Cpc, check_unspent, is_added, build_coin_to_unspent, check_removal, Tip, unspents,
}

-- A coin that the chain had confirmed, and not seen spent, when its tip had this index
pub record IsUnspentAt (tip_index : ℕ) (u : Unspent) : Type 0 where
  pub confirmed : 1 ≤ u.confirmed_block_index
  pub not_later : u.confirmed_block_index ≤ tip_index
  pub not_spent : (u.spent_block_index ≡ 0) ⊎ (tip_index < u.spent_block_index)

check_unspent_sound : (t : ℕ) (u : Unspent) → check_unspent t (some u) ≡ ok tt → IsUnspentAt t u
unfolding check_unspent
check_unspent_sound t u h = record {
  confirmed = ground arith;
  not_later = ground arith;
  not_spent = ground arith;
}

not_none : (t : ℕ) → check_unspent t none ≡ ok tt → ⊥
unfolding check_unspent
not_none t h = cc

check_unspent_complete : (t : ℕ) (u : Unspent) → IsUnspentAt t u → check_unspent t (some u) ≡ ok tt
unfolding check_unspent
check_unspent_complete t u h = ground arith

lookup-build_coin_to_unspent :
    (x : Externals) (db : Source Unspent) (cs : List Cpc) (d : Dict (Option Unspent)) (n : Bytes)
    → lookup n (build_coin_to_unspent x db cs d)
      ≡ (if elem n (map (λ (c : Cpc). name x c.coin) cs) then some (db n) else lookup n d)
unfolding build_coin_to_unspent elem
lookup-build_coin_to_unspent x db [] d n = refl
lookup-build_coin_to_unspent x db (c ∷ cs) d n =
    rw (lookup-build_coin_to_unspent x db cs (insert (name x c.coin) (db (name x c.coin)) d) n)
      (split (name x c.coin) (elem n (map (λ (c : Cpc). name x c.coin) cs)))
  where
    split :
        (m : Bytes) (later : Bool)
        → (if later then some (db n) else lookup n (insert m (db m) d))
          ≡ (if bytes_eq n m || later then some (db n) else lookup n d)
    split m true = ground arith
    split m false = elim (Bool-cases (bytes_eq n m)) [
      | inl same ↦ rw (same, lookup-insert m n (db m) d, (bytes_eq_iff n m).0 same, bytes_eq_refl m)
      | inr other ↦ ground (arith, bytes_eq_iff n m, bytes_eq_iff m n, lookup-insert m n (db m) d)
    ]

-- What the context knows of every spent coin is what the overlay answers for it.
pub lookup-coin_to_unspent :
    (x : Externals) (db : Source Unspent) (cs : List Cpc)
    → All
        (λ c. lookup (name x c.coin) (build_coin_to_unspent x db cs []) ≡ some (db (name x c.coin)))
        cs
lookup-coin_to_unspent x db cs =
    All-map cs
      (λ c e. lookup-build_coin_to_unspent x db cs [] (name x c.coin) ∙ pick (name x c.coin) e)
      (All-elem-map (λ (c : Cpc). name x c.coin) cs)
  where
    pick :
        (n : Bytes)
        → elem n (map (λ (c : Cpc). name x c.coin) cs) ≡ true
        → (if elem n (map (λ (c : Cpc). name x c.coin) cs) then some (db n) else lookup n [])
          ≡ some (db n)
    pick n e = rw e

module _ (x : Externals) (tip : Tip) (additions : List Coin) where
  -- the answer of the overlay, which asks the chain's database first
  abbrev pub answer : Bytes → Option Unspent
  answer =
      overlay
        (tip.unspent_db ∷ (λ n. lookup n (ram_unspent_db x additions (tip.tip_index + 1) [])) ∷ [])

  -- What is confirmed up to the tip comes from the chain's database.
  pub answer_sound :
      (n : Bytes) (u : Unspent)
      → answer n ≡ some u
      → u.confirmed_block_index ≤ tip.tip_index
      → tip.unspent_db n ≡ some u
  unfolding overlay lookup
  answer_sound n u e le = elim (Option-cases (tip.unspent_db n)) [
    | inl absent ↦ absurd (
        omega (
          arith,
          created n u
              (rw (lookup-ram_unspent_db x additions (tip.tip_index + 1) [] n) at (rw absent at e)),
        ))
    | inr (v, there) ↦ there ∙ (rw there at e)
  ]
    where
      created :
          (n : Bytes) (u : Unspent)
          → overlay
              ((λ m.
                  if elem m (map (name x) additions)
                  then some
                      (record { confirmed_block_index = tip.tip_index + 1; spent_block_index = 0 })
                  else lookup m [])
                ∷ [])
              n
            ≡ some u
          → u.confirmed_block_index ≡ tip.tip_index + 1
      created n u e = ground arith

  pub answer_complete : (n : Bytes) (u : Unspent) → tip.unspent_db n ≡ some u → answer n ≡ some u
  unfolding overlay
  answer_complete n u e = rw e

  -- The database's entry for each spent coin that the block does not create itself is unspent.
  abbrev pub FromChain : Cpc → Type 0
  FromChain c =
      is_added c.coin additions ≡ false
      → (u : Unspent) × (tip.unspent_db (name x c.coin) ≡ some u) × IsUnspentAt tip.tip_index u

  pub check_one :
      (d : Dict (Option Unspent)) (c : Cpc)
      → lookup (name x c.coin) d ≡ some (answer (name x c.coin))
      → (check_removal x additions d tip.tip_index c ≡ ok tt) ↔ FromChain c
  unfolding check_removal
  check_one d c e = elim (Bool-cases (is_added c.coin additions)) [
    | inl added ↦ rw added ((λ h k. cc), (λ h. refl))
    | inr other ↦
        rw (other, e) ((λ h k. found (answer (name x c.coin)) refl h), (λ h. passes (h refl)))
  ]
    where
      found :
          (o : Option Unspent)
          → answer (name x c.coin) ≡ o
          → check_unspent tip.tip_index o ≡ ok tt
          → (u : Unspent) × (tip.unspent_db (name x c.coin) ≡ some u) × IsUnspentAt tip.tip_index u
      found none p h = absurd (not_none tip.tip_index h)
      found (some u) p h =
          let good = check_unspent_sound tip.tip_index u h in
          (u, answer_sound (name x c.coin) u p good.not_later, good)

      passes :
          (u : Unspent) × (tip.unspent_db (name x c.coin) ≡ some u) × IsUnspentAt tip.tip_index u
          → check_unspent tip.tip_index (answer (name x c.coin)) ≡ ok tt
      passes (u, there, good) =
          rw (answer_complete (name x c.coin) u there) (check_unspent_complete tip.tip_index u good)

  check_each :
      (d : Dict (Option Unspent)) (cs : List Cpc)
      → All (λ c. lookup (name x c.coin) d ≡ some (answer (name x c.coin))) cs
      → (All (λ c. check_removal x additions d tip.tip_index c ≡ ok tt) cs → All FromChain cs)
        × (All FromChain cs → All (λ c. check_removal x additions d tip.tip_index c ≡ ok tt) cs)
  check_each d [] known = ((λ h. tt), (λ h. tt))
  check_each d (c ∷ cs) known =
      let (to, from) = check_each d cs known.1 in
      let (to', from') = check_one d c known.0 in
      ((λ h. (to' h.0, to h.1)), (λ h. (from' h.0, from h.1)))

  -- The loop over the removals
  pub check_removals_iff :
      (cs : List Cpc)
      → (for_each (check_removal x additions (unspents x tip additions cs) tip.tip_index) cs
          ≡ ok tt)
        ↔ All FromChain cs
  unfolding unspents
  check_removals_iff cs =
      let d = unspents x tip additions cs in
      let (to, from) = for_each_iff (check_removal x additions d tip.tip_index) cs in
      let (to', from') = check_each d cs (lookup-coin_to_unspent x answer cs) in
      ((λ h. to' (to h)), (λ h. from (from' h)))
