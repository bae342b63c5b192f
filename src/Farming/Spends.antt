-- ===== src/Farming/Spends.antt =====
-- The body that `farm_new_block` of farming/__init__.py makes against the bundle it is made from.
use ledger_sim.Prelude.{
  ℕ, ◌≡◌, refl, sym, ap, ◌∙◌, true, List, [], ◌∷◌, Bytes, map, All, length, ◌==◌, ==_iff,
}
use mathlib.Core.List.{map-map}
use ledger_sim.Prelude.Int.{ℤ, ◌+ℤ◌, ◌-ℤ◌, sum_ℤ, int_laws}
use ledger_sim.Errors.{ok, assert, >>=-eq-ok, >>-eq-ok, ok-injective}
use ledger_sim.Externals.{
  Externals, SExp, atom, pair, PyVal, bytes, list, cons, nil, Iter, stop, yields,
}
use ledger_sim.Atoms.SizedBytes.{sized}
use ledger_sim.Hashable.Program.{run, first, rest, tree_hash}
use ledger_sim.Hashable.Coin.{Coin, coin_bytes, name, new_coin, std_hash}
use ledger_sim.Hashable.BlsSignature.{BlsSignature}
use ledger_sim.Hashable.Blocks.{Body}
use ledger_sim.Hashable.SpendBundle.{CoinSolution, SpendBundle, removals}
use ledger_sim.Validation.Conditions.{ConditionsDict}
use ledger_sim.Validation.Consensus.{conditions_dict_for_solution, validate_spend_bundle_signature}
use ledger_sim.Validation.NamePuzzleConditions.{
  Npc, name_puzzle_conditions, npc_iter, name_puzzle_conditions_list,
}
use ledger_sim.Validation.AcceptBlock.{created_coins}
use ledger_sim.Validation.AcceptBlock.Exact.{additions_of, removals_of}
use ledger_sim.Validation.AcceptBlock.Parts.{amounts_out}
use ledger_sim.Wallet.Deltas.{
  additions_for_solution, additions_for_solutions, bundle_additions, fees,
}
use ledger_sim.Farming.{entries, best_solution_program, farm_body, index_as_hash}

abbrev pub yield_all : List SExp → Iter SExp
yield_all [] = stop
yield_all (s ∷ ss) = yields s (yield_all ss)

-- What clvm does with lists: `to` of a list makes pairs that end in the empty atom, `as_iter` goes
-- through them, `as_python` gives a list of values, and a quoted program returns what is quoted.
pub record ListsWork (x : Externals) : Type 0 where
  pub of_empty : x.to_sexp [] ≡ atom []
  pub of_list : (s : SExp) (ss : List SExp) → x.to_sexp (s ∷ ss) ≡ pair s (x.to_sexp ss)
  pub iterates : (ss : List SExp) → x.as_iter (x.to_sexp ss) ≡ yield_all ss
  pub quoted : (v args : SExp) → x.run_program (pair x.quote_keyword (pair v (atom []))) args ≡ ok v
  -- a name with a pair of a puzzle and a solution
  pub named :
      (n : Bytes) (puzzle solution : SExp)
      → (v w : PyVal) × (x.as_python
            (pair (atom n) (pair (pair puzzle (pair solution (atom []))) (atom [])))
          ≡ ok (list (cons (bytes n) (cons (list (cons v (cons w nil))) nil))))

-- A coin's solution is a list of a puzzle and a solution of it.
abbrev pub IsSolution : CoinSolution → Type 0
IsSolution s = (p : SExp) × (q : SExp) × (s.solution ≡ pair p (pair q (atom [])))

module _ (x : Externals) (lists : ListsWork x)
    (digests : (b : Bytes) → length (x.sha256 b) ≡ 32) where
  -- the entry of one coin, read back
  entry-npc :
      (s : CoinSolution) (d : ConditionsDict)
      → IsSolution s
      → conditions_dict_for_solution x s.solution ≡ ok d
      → (h : Bytes) × (name_puzzle_conditions x (x.to_sexp (atom (name x s.coin) ∷ s.solution ∷ []))
          ≡ ok (record { coin_name = name x s.coin; puzzle_hash = h; conditions_dict = d }))
  unfolding name_puzzle_conditions first rest
  entry-npc s d (p, q, shape) e =
      let (v, w, python) = lists.named (name x s.coin) p q in
      (
        tree_hash x p,
        rw (
          lists.of_list (atom (name x s.coin)) (s.solution ∷ []),
          lists.of_list s.solution [],
          lists.of_empty,
          shape,
          python,
          digest_size,
          subst_shape,
        ),
      )
    where
      name_size : length (name x s.coin) ≡ 32
      name_size = unfold name std_hash in digests (coin_bytes x s.coin)

      digest_size : (length (name x s.coin) == 32) ≡ true
      digest_size = (==_iff (length (name x s.coin)) 32).1 name_size

      subst_shape : conditions_dict_for_solution x (pair p (pair q (atom []))) ≡ ok d
      subst_shape = rw (← shape) e

  -- The entries of coins whose solutions run give the coins' names, and create what the wallet says.
  entries-npcs :
      (ss : List CoinSolution) (adds : List Coin)
      → All IsSolution ss
      → additions_for_solutions x ss ≡ ok adds
      → (npcs : List Npc) × (npc_iter x (yield_all (entries x ss)) ≡ ok npcs)
        × (created_coins x npcs ≡ ok adds)
        × (removals_of npcs ≡ map (λ (s : CoinSolution). name x s.coin) ss)
  unfolding additions_for_solutions entries npc_iter created_coins additions_for_solution
  entries-npcs [] adds h e = ([], refl, e, refl)
  entries-npcs (s ∷ ss) adds h e =
      let (items, e1, k1) = >>=-eq-ok (additions_for_solution x (name x s.coin) s.solution) _ e in
      let (more, e2, k2) = >>=-eq-ok (additions_for_solutions x ss) _ k1 in
      let (d, e3, created) = >>=-eq-ok (conditions_dict_for_solution x s.solution) _ e1 in
      let (hash, parsed) = entry-npc s d h.0 e3 in
      let (npcs, later, creates, names) = entries-npcs ss more h.1 e2 in
      (
        record { coin_name = name x s.coin; puzzle_hash = hash; conditions_dict = d } ∷ npcs,
        rw (parsed, later),
        rw (created, creates) k2,
        ap (λ ns. name x s.coin ∷ ns) names,
      )

  -- If clvm makes, reads and quotes lists as `ListsWork` says, and digests have 32 bytes, then a block
  -- program that a farmer makes from a bundle, each of whose solutions is a list of a puzzle and a
  -- solution, and whose additions are known, spends the coins of the bundle, by name and in order, and
  -- creates those additions.
  pub best_solution_program_spends :
      (bundle : SpendBundle) (adds : List Coin)
      → All IsSolution bundle.coin_solutions
      → bundle_additions x bundle ≡ ok adds
      → (npcs : List Npc) × (name_puzzle_conditions_list x (best_solution_program x bundle)
          ≡ ok npcs)
        × (created_coins x npcs ≡ ok adds)
        × (removals_of npcs ≡ map (name x) (removals bundle))
  unfolding best_solution_program name_puzzle_conditions_list bundle_additions removals run
  best_solution_program_spends bundle adds h e =
      let (npcs, parsed, creates, names) = entries-npcs bundle.coin_solutions adds h e in
      (
        npcs,
        rw
            (
              lists.of_list x.quote_keyword (x.to_sexp (entries x bundle.coin_solutions) ∷ []),
              lists.of_list (x.to_sexp (entries x bundle.coin_solutions)) [],
              lists.of_empty,
              lists.quoted (x.to_sexp (entries x bundle.coin_solutions)) (atom []),
              lists.iterates (entries x bundle.coin_solutions),
            )
            parsed,
        creates,
        names ∙ sym (map-map (name x) (λ (s : CoinSolution). s.coin) bundle.coin_solutions),
      )

fees_lem :
    (x : Externals) (bundle : SpendBundle) (adds : List Coin) (f : ℤ)
    → bundle_additions x bundle ≡ ok adds
    → fees x bundle ≡ ok f
    → f ≡ amounts_out (removals bundle) -ℤ amounts_out adds
unfolding fees
fees_lem x bundle adds f e h = sym (ok-injective (rw e at h))

new_coin-amount :
    (parent ph : Bytes) (amount : ℤ) (c : Coin)
    → new_coin parent ph amount ≡ ok c
    → c.amount ≡ amount
unfolding new_coin
new_coin-amount parent ph amount c h =
    let (p, e1, k1) = >>=-eq-ok (sized 32 parent) _ h in
    let (q, e2, k2) = >>=-eq-ok (sized 32 ph) _ k1 in
    sym (ap (λ (a : Coin). a.amount) (ok-injective k2))

-- A body that a farmer makes from a bundle with these additions pays out what the bundle's coins
-- bring in and the coinbase coin's amount, and no more.
pub farm_body-balances :
    (x : Externals) (index : ℕ) (bundle : SpendBundle) (coinbase : Coin) (signature : BlsSignature)
    (ph : Bytes) (adds : List Coin) (body : Body)
    → bundle_additions x bundle ≡ ok adds
    → farm_body x index bundle coinbase signature ph ≡ ok body
    → amounts_out (additions_of body adds) ≡ amounts_out (removals bundle) +ℤ coinbase.amount
unfolding farm_body sum_ℤ
farm_body-balances x index bundle coinbase signature ph adds body e h =
    let (valid, e1, k1) = >>=-eq-ok (validate_spend_bundle_signature x bundle) _ h in
    let (checked, k2) = >>-eq-ok (assert valid) _ k1 in
    let (index_hash, e3, k3) = >>=-eq-ok (index_as_hash index) _ k2 in
    let (f, e4, k4) = >>=-eq-ok (fees x bundle) _ k3 in
    let (coin, e5, k5) = >>=-eq-ok (new_coin index_hash ph f) _ k4 in
    let made : body.coinbase_coin ≡ coinbase =
      sym (ap (λ (b : Body). b.coinbase_coin) (ok-injective k5)) in
    let paid : body.fees_coin ≡ coin = sym (ap (λ (b : Body). b.fees_coin) (ok-injective k5)) in
    rw (made, paid, new_coin-amount index_hash ph f coin e5, fees_lem x bundle adds f e e4)
      (omega int_laws)
