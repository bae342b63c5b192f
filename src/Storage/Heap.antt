-- ===== src/Storage/Heap.antt =====
-- The databases as Python objects. A reference is a number, and two parameters of one call may be
-- the same object: a ledger's storage is its unspent database too.
pub mod Keeps
use ledger_sim.Prelude.{ℕ, ◌≡◌, refl, ap, ◌==◌, if◌then◌else◌}
use ledger_sim.Errors.{Res, ok, raise, Exception, ok-injective, raise-injective}
use ledger_sim.Storage.RamDb.{RamDb}

abbrev pub Ref : Type 0
Ref = ℕ

abbrev pub Heap : Type 0
Heap = Ref → RamDb

-- A method of a database, on the object that a reference names
abbrev pub update : Ref → (RamDb → RamDb) → Heap → Heap
update r f heap q = if r == q then f (heap q) else heap q

-- Code that changes the objects and may raise: what was written before stays written.
abbrev pub Exec : Type 0 → Type 0
Exec A = Heap → Res A × Heap

module _ {A B : Type 0} where
  infixl 5 ◌>>=◌
  abbrev pub ◌>>=◌ : Exec A → (A → Exec B) → Exec B
  ◌>>=◌ m f heap =
      let (r, heap') = m heap in elim r [ ok a ↦ f a heap' | raise e ↦ (raise e, heap') ]

module _ {B : Type 0} where
  infixl 5 ◌>>◌
  abbrev pub ◌>>◌ : Exec (Unit {0}) → Exec B → Exec B
  m >> k = m >>= λ _. k

module _ {A : Type 0} where
  abbrev pub pure : A → Exec A
  pure a heap = (ok a, heap)

  abbrev pub gets : (Heap → A) → Exec A
  gets f heap = (ok (f heap), heap)

  -- code that only reads
  abbrev pub lift : (Heap → Res A) → Exec A
  lift f heap = (f heap, heap)

abbrev pub modify : Ref → (RamDb → RamDb) → Exec (Unit {0})
modify r f heap = (ok tt, update r f heap)

-- What comes after a statement that returned starts from the objects that it left.
module _ {B : Type 0} (k : Exec B) where
  after_result :
      (r : Res (Unit {0})) (heap : Heap)
      → r ≡ ok tt
      → (let out : Res B × Heap = elim r [ ok a ↦ k heap | raise e ↦ (raise e, heap) ] in out)
        ≡ k heap
  after_result (ok a) heap h = refl
  after_result (raise e) heap h = cc

  pub seq-ok :
      (m : Exec (Unit {0})) (heap : Heap) → (m heap).0 ≡ ok tt → (m >> k) heap ≡ k (m heap).1
  seq-ok m heap h = after_result (m heap).0 (m heap).1 h

-- Inversion of a bind that returned.
module _ {A B : Type 0} (f : A → Exec B) where
  bind_result :
      (r : Res A) (heap : Heap) (b : B)
      → (let out : Res B × Heap = elim r [ ok a ↦ f a heap | raise e ↦ (raise e, heap) ] in out.0)
        ≡ ok b
      → (a : A) × (r ≡ ok a) × ((f a heap).0 ≡ ok b)
  bind_result (ok a) heap b h = (a, refl, h)
  bind_result (raise e) heap b h = cc

  pub bind-eq-ok :
      (m : Exec A) (heap : Heap) (b : B)
      → ((m >>= f) heap).0 ≡ ok b
      → (a : A) × ((m heap).0 ≡ ok a) × ((f a (m heap).1).0 ≡ ok b)
  bind-eq-ok m heap b h = bind_result (m heap).0 (m heap).1 b h

  bind_value :
      (r : Res A) (heap : Heap) (a : A)
      → r ≡ ok a
      → (let out : Res B × Heap = elim r [ ok a ↦ f a heap | raise e ↦ (raise e, heap) ] in out)
        ≡ f a heap
  bind_value (ok c) heap a h = ap (λ t. f t heap) (ok-injective h)
  bind_value (raise e) heap a h = cc

  pub bind-ok :
      (m : Exec A) (heap : Heap) (a : A) → (m heap).0 ≡ ok a → (m >>= f) heap ≡ f a (m heap).1
  bind-ok m heap a h = bind_value (m heap).0 (m heap).1 a h

  bind_raised :
      (r : Res A) (heap : Heap) (e : Exception)
      → r ≡ raise e
      → (let out : Res B × Heap = elim r [ ok a ↦ f a heap | raise e ↦ (raise e, heap) ] in out)
        ≡ (raise e, heap)
  bind_raised (ok c) heap e h = cc
  bind_raised (raise d) heap e h = ap (λ t. (raise t, heap)) (raise-injective h)

  pub bind-raise :
      (m : Exec A) (heap : Heap) (e : Exception)
      → (m heap).0 ≡ raise e
      → (m >>= f) heap ≡ (raise e, (m heap).1)
  bind-raise m heap e h = bind_raised (m heap).0 (m heap).1 e h
