-- ===== src/Validation/CheckConditions/Grouped.antt =====
-- `check_conditions_dict` of validation/chainview.py, which visits the conditions group by group,
-- against the conditions one by one.
use ledger_sim.Prelude.{
  ◌≡◌, refl, true, some, ◌↔◌, List, [], ◌∷◌, ◌++◌, Bytes, bytes_eq, bytes_eq_iff, bytes_eq_refl,
  arith, All, Bool-cases, inl, inr, some_inj,
}
use mathlib.Core.Path.{subst, subst₂}
use ledger_sim.Prelude.Dict.{lookup}
use ledger_sim.Errors.{Res, ok, for_each, >>-eq-ok, for_each_iff}
use ledger_sim.Externals.{Externals}
use ledger_sim.Hashable.Coin.{Coin}
use ledger_sim.Validation.Conditions.{
  Condition, ConditionsDict, conditions_by_opcode, empty_lists, sorted_opcodes, append_condition,
  append_conditions,
}
use ledger_sim.Validation.Conditions.ByOpcode.{with_opcode, has_opcode, lookup-conditions_by_opcode}
use ledger_sim.Validation.CheckConditions.{Context, check_condition, check_conditions_dict}
use ledger_sim.Validation.CheckConditions.Soundness.{Holds, check_condition_sound}

abbrev Accepts : (Condition → Res (Unit {0})) → List Condition → Type 0
Accepts f cs = All (λ c. f c ≡ ok tt) cs

for_each-append :
    (f : Condition → Res (Unit {0})) (cs : List Condition) (c : Condition)
    → Accepts f cs
    → f c ≡ ok tt
    → Accepts f (cs ++ (c ∷ []))
for_each-append f [] c h k = (k, tt)
for_each-append f (d ∷ cs) c h k = (h.0, for_each-append f cs c h.1 k)

module _ (x : Externals) (coin : Coin) (context : Context) where
  abbrev check : Bytes → Condition → Res (Unit {0})
  check op c = check_condition x op c coin context

  -- Each condition passes the check of the key under which it stands.
  abbrev Good : ConditionsDict → Type 0
  Good [] = Unit
  Good ((op, cs) ∷ d) = Accepts (check op) cs × Good d

  check_dict_iff :
      (d : ConditionsDict)
      → ((check_conditions_dict x coin d context ≡ ok tt) → Good d)
        × (Good d → check_conditions_dict x coin d context ≡ ok tt)
  unfolding check_conditions_dict
  check_dict_iff [] = (λ e. tt, λ h. refl)
  check_dict_iff ((op, cs) ∷ d) =
      let (to, from) = check_dict_iff d in
      let (to', from') = for_each_iff (check op) cs in
      (
        λ e. let (now, later) = >>-eq-ok (for_each (check op) cs) _ e in (to' now, to later),
        λ h. rw (from' h.0) (from h.1),
      )

  Good-empty_lists : (ops : List Bytes) → Good (empty_lists ops)
  unfolding empty_lists
  Good-empty_lists [] = tt
  Good-empty_lists (op ∷ ops) = (tt, Good-empty_lists ops)

  Good-append_condition :
      (c : Condition) (d : ConditionsDict)
      → check c.opcode c ≡ ok tt
      → Good d
      → Good (append_condition c d)
  unfolding append_condition
  Good-append_condition c [] h g = tt
  Good-append_condition c ((op, cs) ∷ d) h g = elim (Bool-cases (bytes_eq c.opcode op)) [
    | inl same ↦ rw same (
      for_each-append (check op) cs c g.0
          (subst (λ o. check o c ≡ ok tt) ((bytes_eq_iff c.opcode op).0 same) h),
      g.1,
    )
    | inr other ↦ rw other (g.0, Good-append_condition c d h g.1)
  ]

  Good-append_conditions :
      (cs : List Condition) (d : ConditionsDict)
      → All (λ c. check c.opcode c ≡ ok tt) cs
      → Good d
      → Good (append_conditions cs d)
  unfolding append_conditions
  Good-append_conditions [] d h g = g
  Good-append_conditions (c ∷ cs) d h g =
      Good-append_conditions cs (append_condition c d) h.1 (Good-append_condition c d h.0 g)

  Good-lookup :
      (op : Bytes) (d : ConditionsDict) (l : List Condition)
      → Good d
      → lookup op d ≡ some l
      → Accepts (check op) l
  unfolding lookup
  Good-lookup op [] l g e = cc
  Good-lookup op ((o, cs) ∷ d) l g e = elim (Bool-cases (bytes_eq o op)) [
    | inl same ↦
        subst₂ (λ k m. Accepts (check k) m) ((bytes_eq_iff o op).0 same) (some_inj (rw same at e))
          g.0
    | inr other ↦ Good-lookup op d l g.1 (rw other at e)
  ]

  Accepts-with_opcode :
      (op : Bytes) (cs : List Condition)
      → Accepts (check op) (with_opcode op cs)
      → All (λ c. c.opcode ≡ op → check op c ≡ ok tt) cs
  unfolding with_opcode
  Accepts-with_opcode op [] h = tt
  Accepts-with_opcode op (c ∷ cs) h = elim (Bool-cases (bytes_eq c.opcode op)) [
    | inl same ↦ let h' = rw same at h in (λ e. h'.0, Accepts-with_opcode op cs h'.1)
    | inr other ↦ (
      λ e. absurd (cc (other, (bytes_eq_iff c.opcode op).1 e)),
      Accepts-with_opcode op cs (rw other at h),
    )
  ]

has_opcode_later :
    (c : Condition) (op : Bytes) (cs : List Condition)
    → has_opcode op cs ≡ true
    → has_opcode op (c ∷ cs) ≡ true
has_opcode_later c op cs h = ground arith

-- Every condition's opcode occurs among those of a list that has all of theirs.
All-has :
    (whole cs : List Condition)
    → ((op : Bytes) → has_opcode op cs ≡ true → has_opcode op whole ≡ true)
    → All (λ c. has_opcode c.opcode whole ≡ true) cs
All-has whole [] sub = tt
All-has whole (c ∷ cs) sub = (
  sub c.opcode (rw (bytes_eq_refl c.opcode)),
  All-has whole cs (λ op h. sub op (has_opcode_later c op cs h)),
)

module _ (x : Externals) (coin : Coin) (context : Context) where
  All-checked :
      (whole cs : List Condition)
      → ((op : Bytes)
          → has_opcode op whole ≡ true
          → All (λ c. c.opcode ≡ op → check_condition x op c coin context ≡ ok tt) cs)
      → All (λ c. has_opcode c.opcode whole ≡ true) cs
      → All (λ c. check_condition x c.opcode c coin context ≡ ok tt) cs
  All-checked whole [] by_op there = tt
  All-checked whole (c ∷ cs) by_op there =
      ((by_op c.opcode there.0).0 refl, All-checked whole cs (λ op h. (by_op op h).1) there.1)

  -- The conditions of a coin, grouped by opcode, pass exactly if each of them passes its own check.
  pub check_conditions_dict_iff :
      (cs : List Condition)
      → (check_conditions_dict x coin (conditions_by_opcode cs) context ≡ ok tt)
        ↔ All (λ c. check_condition x c.opcode c coin context ≡ ok tt) cs
  unfolding conditions_by_opcode
  check_conditions_dict_iff cs =
      let d = conditions_by_opcode cs in
      (
        λ e.
            All-checked cs cs
              (λ op h. Accepts-with_opcode x coin context op cs (
                Good-lookup x coin context op d (with_opcode op cs)
                  ((check_dict_iff x coin context d).0 e)
                  (rw h at (lookup-conditions_by_opcode op cs))))
              (All-has cs cs (λ op h. h)),
        λ h. (check_dict_iff x coin context d).1 (
            Good-append_conditions x coin context cs (empty_lists (sorted_opcodes cs)) h
              (Good-empty_lists x coin context (sorted_opcodes cs))),
      )

  All-sound :
      (cs : List Condition)
      → All (λ c. check_condition x c.opcode c coin context ≡ ok tt) cs
      → All (Holds x coin context) cs
  All-sound [] h = tt
  All-sound (c ∷ cs) h = (check_condition_sound x coin context c h.0, All-sound cs h.1)

  -- If the conditions of a coin pass, then every one of them holds.
  pub check_conditions_dict_sound :
      (cs : List Condition)
      → check_conditions_dict x coin (conditions_by_opcode cs) context ≡ ok tt
      → All (Holds x coin context) cs
  check_conditions_dict_sound cs e = All-sound cs ((check_conditions_dict_iff cs).0 e)
