-- ===== src/Validation/AcceptBlock/Counter.antt =====
-- The two tests by `collections.Counter` in `accept_new_block` of validation/chainview.py.
use ledger_sim.Prelude.{
  ℕ, ◌+◌, ◌≤◌, ◌≡◌, refl, true, false, none, some, ◌↔◌, List, [], ◌∷◌, Bytes, bytes_eq,
  bytes_eq_iff, ltb, arith, All, elem, IsDistinct, Bool-cases, Option-cases, inl, inr,
  bytes_eq_refl,
}
use ledger_sim.Prelude.Dict.{Dict, lookup, insert, lookup-insert, lookup-insert_self}
use ledger_sim.Errors.{ok, Exception, raise_if, >>-eq-ok, raise_if-eq-ok}
use ledger_sim.Validation.AcceptBlock.{count_in, raise_if_repeated, no_repeats}

abbrev AtMostOne : Dict ℕ → Type 0
AtMostOne d = All (λ e. e.1 ≤ 1) d

abbrev IsPositive : Dict ℕ → Type 0
IsPositive d = All (λ e. 1 ≤ e.1) d

raise_if_repeated_iff :
    (e : Exception) (d : Dict ℕ)
    → ((raise_if_repeated e d ≡ ok tt) → AtMostOne d)
      × (AtMostOne d → raise_if_repeated e d ≡ ok tt)
unfolding raise_if_repeated
raise_if_repeated_iff e [] = (λ h. tt, λ h. refl)
raise_if_repeated_iff e ((k, v) ∷ d) =
    let (to, from) = raise_if_repeated_iff e d in
    (
      λ h.
          let (now, later) = >>-eq-ok (raise_if (ltb 1 v) e) (raise_if_repeated e d) h in
          (ground (arith, raise_if-eq-ok (ltb 1 v) e now), to later),
      λ h. rw (le_one v h.0) (from h.1),
    )
  where
    le_one : (v : ℕ) → v ≤ 1 → ltb 1 v ≡ false
    le_one v h = ground arith

lookup_le_one : (n : Bytes) (v : ℕ) (d : Dict ℕ) → AtMostOne d → lookup n d ≡ some v → v ≤ 1
unfolding lookup
lookup_le_one n v [] h e = cc
lookup_le_one n v ((j, w) ∷ d) h e = ground (arith, lookup_le_one n v d h.1)

lookup_positive : (n : Bytes) (v : ℕ) (d : Dict ℕ) → IsPositive d → lookup n d ≡ some v → 1 ≤ v
unfolding lookup
lookup_positive n v [] h e = cc
lookup_positive n v ((j, w) ∷ d) h e = ground (arith, lookup_positive n v d h.1)

insert-IsPositive :
    (n : Bytes) (v : ℕ) (d : Dict ℕ) → 1 ≤ v → IsPositive d → IsPositive (insert n v d)
unfolding insert
insert-IsPositive n v [] p h = (p, tt)
insert-IsPositive n v ((j, w) ∷ d) p h = ground (arith, insert-IsPositive n v d p h.1)

insert_new-AtMostOne :
    (n : Bytes) (d : Dict ℕ)
    → lookup n d ≡ none
    → (AtMostOne (insert n 1 d) → AtMostOne d) × (AtMostOne d → AtMostOne (insert n 1 d))
unfolding insert lookup
insert_new-AtMostOne n [] e = (λ h. tt, λ h. (omega arith, tt))
insert_new-AtMostOne n ((j, w) ∷ d) e = elim (Bool-cases (bytes_eq j n)) [
  | inl same ↦ absurd (cc (rw same at e))
  | inr other ↦
      let (to, from) = insert_new-AtMostOne n d (rw other at e) in
      rw other ((λ h. (h.0, to h.1)), (λ h. (h.0, from h.1)))
]

count_in-IsDistinct :
    (ns : List Bytes) (d : Dict ℕ)
    → IsPositive d
    → AtMostOne (count_in ns d)
    → AtMostOne d × IsDistinct ns × ((m : Bytes) → elem m ns ≡ true → lookup m d ≡ none)
unfolding count_in elem
count_in-IsDistinct [] d p h = (h, tt, λ m e. cc)
count_in-IsDistinct (n ∷ ns) d p h = elim (Option-cases (lookup n d)) [
  | inl new ↦
      let (small, distinct, fresh) =
        count_in-IsDistinct ns (insert n 1 d) (insert-IsPositive n 1 d (omega arith) p)
          (rw new at h) in
      (
        (insert_new-AtMostOne n d new).0 small,
        (not_later n ns 1 d fresh, distinct),
        λ m e. fresh_before n ns m d new fresh e,
      )
  | inr (k, e) ↦
      let positive : 1 ≤ k = lookup_positive n k d p e in
      let (small, distinct, fresh) =
        count_in-IsDistinct ns (insert n (k + 1) d) (insert-IsPositive n (k + 1) d (omega arith) p)
          (rw e at h) in
      absurd (
        omega (
          arith,
          lookup_le_one n (k + 1) (insert n (k + 1) d) small (lookup-insert_self n (k + 1) d),
        ))
]
  where
    not_later :
        (n : Bytes) (ns : List Bytes) (v : ℕ) (d : Dict ℕ)
        → ((m : Bytes) → elem m ns ≡ true → lookup m (insert n v d) ≡ none)
        → elem n ns ≡ false
    not_later n ns v d fresh = elim (Bool-cases (elem n ns)) [
      | inl there ↦ absurd (cc (fresh n there, lookup-insert_self n v d))
      | inr absent ↦ absent
    ]

    fresh_before :
        (n : Bytes) (ns : List Bytes) (m : Bytes) (d : Dict ℕ)
        → lookup n d ≡ none
        → ((m : Bytes) → elem m ns ≡ true → lookup m (insert n 1 d) ≡ none)
        → elem m (n ∷ ns) ≡ true
        → lookup m d ≡ none
    fresh_before n ns m d new fresh e =
        ground (arith, bytes_eq_iff m n, bytes_eq_iff n m, fresh m, lookup-insert n m 1 d)

count_in_small :
    (ns : List Bytes) (d : Dict ℕ)
    → IsDistinct ns
    → ((m : Bytes) → elem m ns ≡ true → lookup m d ≡ none)
    → AtMostOne d
    → AtMostOne (count_in ns d)
unfolding count_in elem
count_in_small [] d h fresh small = small
count_in_small (n ∷ ns) d h fresh small =
    let new : lookup n d ≡ none = fresh n (rw (bytes_eq_refl n)) in
    rw new (
      count_in_small ns (insert n 1 d) h.1
        (λ m e. ground (arith, bytes_eq_iff n m, fresh m, lookup-insert n m 1 d))
        ((insert_new-AtMostOne n d new).1 small))

-- The test raises exactly if some name stands twice in the list.
pub no_repeats_iff : (e : Exception) (ns : List Bytes) → (no_repeats e ns ≡ ok tt) ↔ IsDistinct ns
unfolding no_repeats
no_repeats_iff e ns =
    let (to, from) = raise_if_repeated_iff e (count_in ns []) in
    (
      λ h. (count_in-IsDistinct ns [] tt (to h)).1,
      λ h. from (count_in_small ns [] h (unfold lookup in λ m k. refl) tt),
    )
