-- ===== src/Validation/Conditions/ByOpcode.antt =====
-- The dictionary of conditions that `conditions_by_opcode` of validation/Conditions.py makes.
use ledger_sim.Prelude.{
  ◌≡◌, refl, ap, Bool, true, false, ◌||◌, none, some, List, [], ◌∷◌, ◌++◌, Bytes, bytes_eq,
  bytes_eq_iff, if◌then◌else◌, arith, elem, All, Bool-cases, inl, inr,
}
use mathlib.Core.List.{append-nil, append_assoc}
use ledger_sim.Prelude.Dict.{lookup, keys}
use ledger_sim.Validation.Conditions.{
  Condition, ConditionsDict, bytes_lt, insert_opcode, sorted_opcodes, empty_lists, append_condition,
  append_conditions, conditions_by_opcode,
}

-- The conditions with an opcode, in order.
unfoldable pub with_opcode : Bytes → List Condition → List Condition
with_opcode op [] = []
with_opcode op (c ∷ cs) =
    let more = with_opcode op cs in if bytes_eq c.opcode op then c ∷ more else more

-- Each opcode is less than the next.
abbrev pub IsSorted : List Bytes → Type 0
IsSorted [] = Unit
IsSorted (a ∷ as') = All (λ b. bytes_lt a b ≡ true) as' × IsSorted as'

bytes_lt_irrefl : (a : Bytes) → bytes_lt a a ≡ false
unfolding bytes_lt
bytes_lt_irrefl [] = refl
bytes_lt_irrefl (a ∷ as') = ground (arith, bytes_lt_irrefl as')

bytes_lt_trans : (a b c : Bytes) → bytes_lt a b ≡ true → bytes_lt b c ≡ true → bytes_lt a c ≡ true
unfolding bytes_lt
bytes_lt_trans a [] c h k = cc
bytes_lt_trans [] (b ∷ bs) [] h k = cc
bytes_lt_trans [] (b ∷ bs) (c ∷ cs) h k = refl
bytes_lt_trans (a ∷ as') (b ∷ bs) [] h k = cc
bytes_lt_trans (a ∷ as') (b ∷ bs) (c ∷ cs) h k = ground (arith, bytes_lt_trans as' bs cs)

-- Of two different byte strings one is less.
bytes_lt_total : (a b : Bytes) → bytes_lt a b ≡ false → bytes_eq a b ≡ false → bytes_lt b a ≡ true
unfolding bytes_lt bytes_eq
bytes_lt_total [] [] h k = cc
bytes_lt_total [] (b ∷ bs) h k = cc
bytes_lt_total (a ∷ as') [] h k = refl
bytes_lt_total (a ∷ as') (b ∷ bs) h k = ground (arith, bytes_lt_total as' bs)

All-lt_trans :
    (a b : Bytes) (cs : List Bytes)
    → bytes_lt a b ≡ true
    → All (λ c. bytes_lt b c ≡ true) cs
    → All (λ c. bytes_lt a c ≡ true) cs
All-lt_trans a b [] h all = tt
All-lt_trans a b (c ∷ cs) h all = (bytes_lt_trans a b c h all.0, All-lt_trans a b cs h all.1)

All-insert :
    (a op : Bytes) (os : List Bytes)
    → bytes_lt a op ≡ true
    → All (λ c. bytes_lt a c ≡ true) os
    → All (λ c. bytes_lt a c ≡ true) (insert_opcode op os)
unfolding insert_opcode
All-insert a op [] h all = (h, tt)
All-insert a op (o ∷ os) h all = elim (Bool-cases (bytes_eq op o)) [
  | inl same ↦ rw same all
  | inr other ↦ elim (Bool-cases (bytes_lt op o)) [
    | inl less ↦ rw (other, less) (h, all)
    | inr more ↦ rw (other, more) (all.0, All-insert a op os h all.1)
  ]
]

insert_opcode-IsSorted :
    (op : Bytes) (os : List Bytes) → IsSorted os → IsSorted (insert_opcode op os)
unfolding insert_opcode
insert_opcode-IsSorted op [] s = (tt, tt)
insert_opcode-IsSorted op (o ∷ os) s = elim (Bool-cases (bytes_eq op o)) [
  | inl same ↦ rw same s
  | inr other ↦ elim (Bool-cases (bytes_lt op o)) [
    | inl less ↦ rw (other, less) ((less, All-lt_trans op o os less s.0), s)
    | inr more ↦
        rw (other, more)
          (
            All-insert o op os (bytes_lt_total op o more other) s.0,
            insert_opcode-IsSorted op os s.1,
          )
  ]
]

pub sorted_opcodes-IsSorted : (cs : List Condition) → IsSorted (sorted_opcodes cs)
unfolding sorted_opcodes
sorted_opcodes-IsSorted [] = tt
sorted_opcodes-IsSorted (c ∷ cs) =
    insert_opcode-IsSorted c.opcode (sorted_opcodes cs) (sorted_opcodes-IsSorted cs)

elem-insert_opcode :
    (n op : Bytes) (os : List Bytes) → elem n (insert_opcode op os) ≡ (bytes_eq n op || elem n os)
unfolding insert_opcode elem
elem-insert_opcode n op [] = refl
elem-insert_opcode n op (o ∷ os) =
    ground
      (arith, bytes_eq_iff op o, bytes_eq_iff n op, bytes_eq_iff n o, elem-insert_opcode n op os)

keys-append_condition : (c : Condition) (d : ConditionsDict) → keys (append_condition c d) ≡ keys d
unfolding append_condition
keys-append_condition c [] = refl
keys-append_condition c ((op, cs) ∷ d) = ground (arith, keys-append_condition c d)

keys-append_conditions :
    (cs : List Condition) (d : ConditionsDict) → keys (append_conditions cs d) ≡ keys d
unfolding append_conditions
keys-append_conditions [] d = refl
keys-append_conditions (c ∷ cs) d =
    rw (keys-append_conditions cs (append_condition c d)) (keys-append_condition c d)

keys-empty_lists : (ops : List Bytes) → keys (empty_lists ops) ≡ ops
unfolding empty_lists
keys-empty_lists [] = refl
keys-empty_lists (op ∷ ops) = ap (λ t. op ∷ t) (keys-empty_lists ops)

-- The keys are the opcodes that occur, sorted.
pub keys-conditions_by_opcode :
    (cs : List Condition) → keys (conditions_by_opcode cs) ≡ sorted_opcodes cs
unfolding conditions_by_opcode
keys-conditions_by_opcode cs =
    rw (keys-append_conditions cs (empty_lists (sorted_opcodes cs)))
      (keys-empty_lists (sorted_opcodes cs))

lookup-append_condition :
    (op : Bytes) (c : Condition) (d : ConditionsDict) (l : List Condition)
    → lookup op d ≡ some l
    → lookup op (append_condition c d) ≡ some (if bytes_eq c.opcode op then l ++ (c ∷ []) else l)
unfolding append_condition lookup
lookup-append_condition op c [] l h = cc
lookup-append_condition op c ((o, cs) ∷ d) l h = ground (
  arith,
  bytes_eq_iff c.opcode o,
  bytes_eq_iff o op,
  bytes_eq_iff c.opcode op,
  lookup-append_condition op c d l,
)

lookup-append_condition-none :
    (op : Bytes) (c : Condition) (d : ConditionsDict)
    → lookup op d ≡ none
    → lookup op (append_condition c d) ≡ none
unfolding append_condition lookup
lookup-append_condition-none op c [] h = refl
lookup-append_condition-none op c ((o, cs) ∷ d) h =
    ground (arith, lookup-append_condition-none op c d)

lookup-append_conditions :
    (op : Bytes) (cs : List Condition) (d : ConditionsDict) (l : List Condition)
    → lookup op d ≡ some l
    → lookup op (append_conditions cs d) ≡ some (l ++ with_opcode op cs)
unfolding append_conditions with_opcode
lookup-append_conditions op [] d l h = rw append-nil h
lookup-append_conditions op (c ∷ cs) d l h = elim (Bool-cases (bytes_eq c.opcode op)) [
  | inl same ↦
      rw
        (lookup-append_conditions op cs (append_condition c d) (l ++ (c ∷ []))
          (rw (lookup-append_condition op c d l h, same)))
        (rw (same, append_assoc))
  | inr other ↦
      rw
        (lookup-append_conditions op cs (append_condition c d) l
          (rw (lookup-append_condition op c d l h, other)))
        (rw other)
]

lookup-append_conditions-none :
    (op : Bytes) (cs : List Condition) (d : ConditionsDict)
    → lookup op d ≡ none
    → lookup op (append_conditions cs d) ≡ none
unfolding append_conditions
lookup-append_conditions-none op [] d h = h
lookup-append_conditions-none op (c ∷ cs) d h =
    lookup-append_conditions-none op cs (append_condition c d)
      (lookup-append_condition-none op c d h)

lookup-empty_lists :
    (op : Bytes) (ops : List Bytes)
    → lookup op (empty_lists ops) ≡ (if elem op ops then some [] else none)
unfolding lookup empty_lists elem
lookup-empty_lists op [] = refl
lookup-empty_lists op (o ∷ os) =
    ground (arith, bytes_eq_iff o op, bytes_eq_iff op o, lookup-empty_lists op os)

-- Some condition has the opcode.
abbrev pub has_opcode : Bytes → List Condition → Bool
has_opcode op [] = false
has_opcode op (c ∷ cs) = bytes_eq op c.opcode || has_opcode op cs

elem-sorted_opcodes :
    (op : Bytes) (cs : List Condition) → elem op (sorted_opcodes cs) ≡ has_opcode op cs
unfolding sorted_opcodes elem
elem-sorted_opcodes op [] = refl
elem-sorted_opcodes op (c ∷ cs) =
    rw (elem-insert_opcode op c.opcode (sorted_opcodes cs), elem-sorted_opcodes op cs)

-- `conditions_by_opcode(conditions).get(op)` is the list of the conditions with the opcode, in their
-- order, if there is any, and `None` if there is none.
pub lookup-conditions_by_opcode :
    (op : Bytes) (cs : List Condition)
    → lookup op (conditions_by_opcode cs)
      ≡ (if has_opcode op cs then some (with_opcode op cs) else none)
unfolding conditions_by_opcode
lookup-conditions_by_opcode op cs =
    let start = rw (elem-sorted_opcodes op cs) at (lookup-empty_lists op (sorted_opcodes cs)) in
    elim (Bool-cases (has_opcode op cs)) [
      | inl there ↦
          rw there (
            lookup-append_conditions op cs (empty_lists (sorted_opcodes cs)) [] (rw there at start))
      | inr absent ↦ rw absent (
          lookup-append_conditions-none op cs (empty_lists (sorted_opcodes cs))
            (rw absent at start))
    ]

-- The dictionary is the conditions grouped by opcode: its keys are the opcodes that occur, in
-- increasing order, and under each stand all the conditions with that opcode, in their order.
pub conditions_by_opcode_lem :
    (cs : List Condition)
    → IsSorted (keys (conditions_by_opcode cs))
      × ((op : Bytes)
          → lookup op (conditions_by_opcode cs)
            ≡ (if has_opcode op cs then some (with_opcode op cs) else none))
conditions_by_opcode_lem cs = (
  rw (keys-conditions_by_opcode cs) (sorted_opcodes-IsSorted cs),
  λ op. lookup-conditions_by_opcode op cs,
)
