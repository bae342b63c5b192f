-- ===== src/Storage/Heap/Keeps.antt =====
-- Code that keeps a property of the databases, whether it returns or raises.
use ledger_sim.Prelude.{◌≡◌, refl, sym}
use mathlib.Core.Path.{subst}
use ledger_sim.Errors.{Res, ok, raise}
use ledger_sim.Storage.Heap.{Heap, Exec, ◌>>=◌, ◌>>◌, lift, bind-ok, bind-raise}

module _ (P : Heap → Type 0) where
  abbrev pub Keeps : {A : Type 0} → Exec A → Type 0
  Keeps m = (heap : Heap) → P heap → P (m heap).1

  module _ {A B : Type 0} where
    pub bind-Keeps :
        (m : Exec A) (f : A → Exec B) → Keeps m → ((a : A) → Keeps (f a)) → Keeps (m >>= f)
    bind-Keeps m f first later heap p = go (m heap).0 refl
      where
        go : (r : Res A) → (m heap).0 ≡ r → P ((m >>= f) heap).1
        go (ok a) e =
            subst (λ t. P t.1) (sym (bind-ok f m heap a e)) (later a (m heap).1 (first heap p))
        go (raise b) e = subst (λ t. P t.1) (sym (bind-raise f m heap b e)) (first heap p)

    -- code that only reads in front
    pub lift-bind-Keeps :
        (g : Heap → Res A) (f : A → Exec B) → ((a : A) → Keeps (f a)) → Keeps (lift g >>= f)
    lift-bind-Keeps g f later = bind-Keeps (lift g) f (λ heap p. p) later

  module _ {B : Type 0} where
    pub seq-Keeps : (m : Exec (Unit {0})) (k : Exec B) → Keeps m → Keeps k → Keeps (m >> k)
    seq-Keeps m k first later = bind-Keeps m (λ _. k) first (λ _. later)
