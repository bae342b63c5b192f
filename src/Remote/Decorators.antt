-- ===== src/Remote/Decorators.antt =====
-- `transform_args` of remote/api_decorators.py, and `xform_dict` of remote/client.py: the values of some
-- keys of a message are transformed.
use ledger_sim.Prelude.{
  ◌≡◌, refl, sym, ap, ◌∙◌, false, Option, none, some, [], ◌∷◌, Bytes, bytes_eq, bytes_eq_iff, arith,
  elem, IsDistinct, Bool-cases, inl, inr,
}
use mathlib.Core.Path.{subst}
use ledger_sim.Prelude.Dict.{Dict, lookup, insert, keys, lookup-insert}
use ledger_sim.Errors.{Res, ok, or_raise, key_error, >>=-eq-ok, ok-injective, or_raise-eq-ok, ◌>>=◌}

module _ {V : Type 0} where
  -- `new_message[k] = v(message[k])`, for each keyword
  unfoldable pub transform_items : Dict (V → Res V) → Dict V → Dict V → Res (Dict V)
  transform_items [] message new_message = ok new_message
  transform_items ((k, v) ∷ more) message new_message = do
    old ← or_raise key_error (lookup k message)
    new ← v old
    transform_items more message (insert k new new_message)

  -- `transform_args`, of a dictionary, and the function that `xform_dict` returns
  unfoldable pub transform_args : Dict (V → Res V) → Dict V → Res (Dict V)
  unfolding transform_items
  transform_args kwarg_transformers message = transform_items kwarg_transformers message message

  -- The value of one key afterwards, given its transformer, if it has one: what the transformer makes of
  -- the message's value, or what was there.
  abbrev pub IsTransformed : Option (V → Res V) → Option V → Option V → Option V → Type 0
  IsTransformed none held before after = after ≡ before
  IsTransformed (some f) held before after =
      (old : V) × (new : V) × (held ≡ some old) × (f old ≡ ok new) × (after ≡ some new)

  not_a_key : (k : Bytes) (ts : Dict (V → Res V)) → elem k (keys ts) ≡ false → lookup k ts ≡ none
  unfolding elem lookup
  not_a_key k [] e = refl
  not_a_key k ((j, f) ∷ ts) e = ground (arith, bytes_eq_iff j k, bytes_eq_iff k j, not_a_key k ts)

  transform_items_lem :
      (ts : Dict (V → Res V)) (message start result : Dict V)
      → IsDistinct (keys ts)
      → transform_items ts message start ≡ ok result
      → (k : Bytes)
      → IsTransformed (lookup k ts) (lookup k message) (lookup k start) (lookup k result)
  unfolding transform_items lookup
  transform_items_lem [] message start result d e k = ap (lookup k) (sym (ok-injective e))
  transform_items_lem ((j, f) ∷ more) message start result (fresh, d) e k =
      let (old, e1, k1) = >>=-eq-ok (or_raise key_error (lookup j message)) _ e in
      let (new, e2, k2) = >>=-eq-ok (f old) _ k1 in
      let later = transform_items_lem more message (insert j new start) result d k2 k in
      elim (Bool-cases (bytes_eq j k)) [
        | inl same ↦
            let j_is_k : j ≡ k = (bytes_eq_iff j k).0 same in
            let unchanged : lookup k result ≡ lookup k (insert j new start) =
              subst
                (λ o.
                  IsTransformed o (lookup k message) (lookup k (insert j new start))
                    (lookup k result))
                (not_a_key k more (subst (λ i. elem i (keys more) ≡ false) j_is_k fresh)) later in
            rw same (
              old,
              new,
              subst (λ i. lookup i message ≡ some old) j_is_k
                  (or_raise-eq-ok key_error (lookup j message) old e1),
              e2,
              unchanged ∙ (lookup-insert j k new start ∙ rw same refl),
            )
        | inr other ↦ rw other (
            subst (λ o. IsTransformed (lookup k more) (lookup k message) o (lookup k result))
              (lookup-insert j k new start ∙ rw other refl) later)
      ]

  -- Where no keyword stands twice and the decorator returns, the value of a keyword is what its
  -- transformer makes of the message's value, and any other key has the message's value.
  pub transform_args_lem :
      (ts : Dict (V → Res V)) (message result : Dict V)
      → IsDistinct (keys ts)
      → transform_args ts message ≡ ok result
      → (k : Bytes)
      → IsTransformed (lookup k ts) (lookup k message) (lookup k message) (lookup k result)
  unfolding transform_args
  transform_args_lem ts message result = transform_items_lem ts message message result
