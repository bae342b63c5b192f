-- ===== src/Atoms/Sizes.antt =====
-- How many bytes the codecs of atoms/ write, where that does not depend on the value.
use ledger_sim.Prelude.{ℕ, ◌+◌, ◌≡◌, sym, ap, ◌∙◌, Bytes, length, length-append, arith}
use ledger_sim.Prelude.Int.{pos}
use ledger_sim.Errors.{ok, >>=-eq-ok, ok-injective}
use ledger_sim.Atoms.BigEndian.{big_endian, length-big_endian}
use ledger_sim.Atoms.Codec.{Codec, field, streamable}
use ledger_sim.Atoms.Ints.{Pack, pack, struct_stream, uint}
use ledger_sim.Atoms.SizedBytes.{sized_bytes}

-- Whatever is streamed has this many bytes; the fields that are sized bytes have their sizes by `P`.
pub record HasSize {T : Type 0} (c : Codec T) (P : T → Type 0) (n : ℕ) : Type 0 where
  pub size : (v : T) (blob : Bytes) → P v → c.stream v ≡ ok blob → length blob ≡ n

module _ {A B : Type 0} {a : Codec A} {b : Codec B} {P : A → Type 0} {Q : B → Type 0}
    {m n : ℕ} where
  pub field-HasSize :
      HasSize a P m → HasSize b Q n → HasSize (field a b) (λ v. P v.0 × Q v.1) (m + n)
  unfolding field
  field-HasSize ha hb = record {
    size = λ v blob p e.
        let (s, e1, k1) = >>=-eq-ok (a.stream v.0) _ e in
        let (t, e2, k2) = >>=-eq-ok (b.stream v.1) _ k1 in
        ap length (sym (ok-injective k2))
        ∙ omega (arith, length-append s t, ha.size v.0 s p.0 e1, hb.size v.1 t p.1 e2);
  }

pub streamable-HasSize :
    {A T : Type 0} {a : Codec A} {P : A → Type 0} {n : ℕ} (build : A → T) (fields : T → A)
    → HasSize a P n
    → HasSize (streamable build fields a) (λ t. P (fields t)) n
unfolding streamable
streamable-HasSize build fields h = record { size = λ t blob p e. h.size (fields t) blob p e }

pub sized_bytes-HasSize : (n : ℕ) → HasSize (sized_bytes n) (λ v. length v ≡ n) n
unfolding sized_bytes
sized_bytes-HasSize n = record { size = λ v blob p e. ap length (sym (ok-injective e)) ∙ p }

pub struct_stream-HasSize : (p : Pack) → HasSize (struct_stream p) (λ v. Unit {0}) p.width
unfolding struct_stream pack
struct_stream-HasSize p = record {
  size = λ v blob u e.
      let (n, e1, k) = >>=-eq-ok _ (λ n. ok (big_endian p.width n)) e in
      ap length (sym (ok-injective k)) ∙ length-big_endian p.width n;
}

pub uint-HasSize : (p : Pack) → HasSize (uint p) (λ v. Unit {0}) p.width
unfolding uint
uint-HasSize p = streamable-HasSize _ pos (struct_stream-HasSize p)
