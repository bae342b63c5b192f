-- ===== src/Tests/Toy.antt =====
-- A concrete function for each thing that the program takes from outside: the hash is a checksum, a
-- program returns itself, and a signature is a public key with the message.
use ledger_sim.Prelude.{
  ℕ, zero, suc, ◌+◌, ◌*◌, ◌/◌, ◌%◌, ◌≤◌, ◌≡◌, refl, ap, Bool, true, List, [], ◌∷◌, ◌++◌, Bytes,
  bytes_eq, replicate, length, take, drop, take-append, drop-append, length-take, length-append,
  arith,
}
use mathlib.Core.List.{append_assoc}
use ledger_sim.Prelude.Int.{ℤ, pos, negsuc}
use ledger_sim.Errors.{Res, ok, raise, eval_error, type_error, value_error, ◌>>=◌}
use ledger_sim.Externals.{
  Externals, SExp, atom, pair, PyVal, PyVals, bytes, list, nil, cons, Iter, stop, fails, yields,
}
use ledger_sim.Hashable.Program.{ReadsBack}
use ledger_sim.Hashable.Coin.{IntsReadBack}
use ledger_sim.Farming.Spends.{ListsWork, yield_all}
use ledger_sim.Farming.Signing.{IsSha256}
use ledger_sim.Pool.Rewards.{BlsSizes}

abbrev checksum : ℕ → Bytes → ℕ
checksum acc [] = acc
checksum acc (b ∷ bs) = checksum ((acc * 31 + b + 7) % 65521) bs

abbrev pub digest : Bytes → Bytes
digest b = checksum 1 b / 256 ∷ checksum 1 b % 256 ∷ 1 ∷ replicate 29 0

abbrev items : PyVal → PyVals
items (bytes b) = nil
items (list vs) = vs

abbrev to_python : SExp → PyVal
to_python (atom b) = bytes b
to_python (pair l r) = list (cons (to_python l) (items (to_python r)))

abbrev iterate : SExp → Iter SExp
iterate (atom []) = stop
iterate (atom (b ∷ bs)) = fails eval_error
iterate (pair l r) = yields l (iterate r)

abbrev pub list_sexp : List SExp → SExp
list_sexp [] = atom []
list_sexp (s ∷ ss) = pair s (list_sexp ss)

-- An integer is one element, with a zero in front if it is negative.
abbrev int_in : Bytes → Res ℤ
int_in [] = ok (pos 0)
int_in (n ∷ []) = ok (pos n)
int_in (s ∷ n ∷ ns) = ok (negsuc n)

abbrev int_out : ℤ → Bytes
int_out (pos n) = n ∷ []
int_out (negsuc n) = 0 ∷ n ∷ []

abbrev int_in_list : PyVals → Res ℤ
int_in_list nil = ok (pos 0)
int_in_list (cons v vs) = raise type_error

-- A tree is written with its size first, which bounds the reading.
abbrev size : SExp → ℕ
size (atom b) = 1
size (pair l r) = suc (size l + size r)

abbrev written : SExp → Bytes
written (atom b) = 0 ∷ length b ∷ b
written (pair l r) = 1 ∷ (written l ++ written r)

abbrev read : ℕ → Bytes → Res (SExp × Bytes)
read zero f = raise value_error
read (suc d) [] = raise value_error
read (suc d) (zero ∷ []) = raise value_error
read (suc d) (zero ∷ n ∷ f) = ok (atom (take n f), drop n f)
read (suc d) (suc k ∷ f) = do (l, f') ← read d f; (r, f'') ← read d f'; ok (pair l r, f'')

abbrev read_sized : Bytes → Res (SExp × Bytes)
read_sized [] = raise value_error
read_sized (d ∷ f) = read d f

read-written :
    (d : ℕ) (p : SExp) (more : Bytes) → size p ≤ d → read d (written p ++ more) ≡ ok (p, more)
read-written zero (atom b) more h = absurd (omega (arith, h))
read-written zero (pair l r) more h = absurd (omega (arith, h))
read-written (suc d) (atom b) more h =
    rw (take-append b more (length b) refl, drop-append b more (length b) refl)
read-written (suc d) (pair l r) more h = rw (
  append_assoc,
  read-written d l (written r ++ more) (omega arith),
  read-written d r more (omega arith),
)

abbrev is_signature : Bytes → List Bytes → List Bytes → Bool
is_signature s (h ∷ hs) (k ∷ ks) = bytes_eq s (k ++ (h ++ replicate 16 0))
is_signature s hs ks = true

abbrev first_of : List Bytes → Bytes
first_of [] = []
first_of (b ∷ bs) = b

-- A quoted list returns what is quoted, and any other program returns itself.
abbrev evaluate : SExp → SExp
evaluate (pair (atom (suc zero ∷ [])) (pair v (atom []))) = v
evaluate program = program

abbrev pub toy : Externals
toy = record {
  breakpoint = ok tt;
  sha256 = digest;
  hash256 = digest;
  PublicKey = Bytes;
  PrependSignature = Bytes;
  public_key_from_bytes = λ b. ok b;
  signature_from_bytes = λ b. ok b;
  verify = λ s hs ks. ok (is_signature s hs ks);
  aggregate = λ ss. ok (first_of ss);
  serialize = λ s. s;
  PrivateKey = Bytes;
  private_key_from_bytes = λ b. ok b;
  private_key_bytes = λ k. k;
  public_key_of = λ k. 1 ∷ take 47 (k ++ replicate 47 0);
  public_key_bytes = λ k. k;
  sign_prepend_prehashed = λ k h. 1 ∷ (take 47 (k ++ replicate 47 0) ++ (h ++ replicate 16 0));
  private_child = λ seed n. replicate 31 0 ++ ((n + 1) ∷ []);
  int_from_bytes = int_in;
  int_from_list = int_in_list;
  int_to_bytes = int_out;
  as_iter = iterate;
  as_python = λ s. ok (to_python s);
  to_sexp = list_sexp;
  run_program = λ program args. ok (evaluate program);
  sexp_to_stream = λ s. size s ∷ written s;
  sexp_from_stream = read_sized;
  quote_keyword = atom (1 ∷ []);
  curry = λ program args. ok (list_sexp (program ∷ args));
  p2_conditions_mod = atom (2 ∷ []);
  p2_delegated_conditions_mod = atom (3 ∷ []);
  p2_delegated_puzzle_mod = atom (4 ∷ []);
}

pub toy_ints : IntsReadBack toy
toy_ints = record { at = back }
  where
    back : (a : ℤ) → toy.int_from_bytes (toy.int_to_bytes a) ≡ ok a
    back (pos n) = refl
    back (negsuc n) = refl

pub toy_reads_back : ReadsBack toy
toy_reads_back = record { at = λ p more. read-written (size p) p more (omega arith) }

pub toy_lists : ListsWork toy
toy_lists = record {
  of_empty = refl;
  of_list = λ s ss. refl;
  iterates = goes_through;
  quoted = λ v args. refl;
  named = λ n puzzle solution. (to_python puzzle, to_python solution, refl);
}
  where
    goes_through : (ss : List SExp) → toy.as_iter (toy.to_sexp ss) ≡ yield_all ss
    goes_through [] = refl
    goes_through (s ∷ ss) = ap (yields s) (goes_through ss)

pub toy_sha256 : IsSha256 toy
toy_sha256 = record { agrees = λ b. refl; size = λ b. refl }

padded : (k : Bytes) → length (take 47 (k ++ replicate 47 0)) ≡ 47
padded k = omega (arith, length-take 47 (k ++ replicate 47 0), length-append k (replicate 47 0))

pub toy_sizes : BlsSizes toy
toy_sizes = record {
  key_size = λ k. omega (arith, padded k);
  signature_size = λ k h size. omega (
    arith,
    length-append (take 47 (k ++ replicate 47 0)) (h ++ replicate 16 0),
    length-append h (replicate 16 0),
    padded k,
    size,
  );
}
