-- ===== src/Hashable/Program.antt =====
-- hashable/Program.py: an s-expression that is hashed as a tree and run.
use ledger_sim.Prelude.{◌≡◌, List, ◌∷◌, ◌++◌, Bytes, Bool, true, false}
use ledger_sim.Errors.{Res, ok, raise, eval_error}
use ledger_sim.Externals.{Externals, SExp, atom, pair}
use ledger_sim.Atoms.Codec.{Codec}
use ledger_sim.Atoms.SizedBytes.{sized}

unfoldable pub listp : SExp → Bool
listp (atom b) = false
listp (pair l r) = true

-- `first()` and `rest()` of what is no pair raise EvalError.
unfoldable pub first : SExp → Res SExp
first (atom b) = raise eval_error
first (pair l r) = ok l

unfoldable pub rest : SExp → Res SExp
rest (atom b) = raise eval_error
rest (pair l r) = ok r

module _ (x : Externals) where
  -- `tree_hash`
  unfoldable pub tree_hash : SExp → Bytes
  tree_hash (atom b) = x.sha256 (1 ∷ b)
  tree_hash (pair l r) = x.sha256 (2 ∷ (tree_hash l ++ tree_hash r))

  -- `run`
  unfoldable pub run : SExp → SExp → Res SExp
  run program args = x.run_program program args

  -- `curry`
  unfoldable pub curried : SExp → List SExp → Res SExp
  curried program args = x.curry program args

  -- `ProgramPointer(v)`, of a program
  unfoldable pub program_pointer : SExp → Res Bytes
  unfolding tree_hash sized
  program_pointer v = sized 32 (tree_hash v)

  -- `stream` and `parse`
  unfoldable pub program_codec : Codec SExp
  program_codec = record { stream = λ p. ok (x.sexp_to_stream p); parse = x.sexp_from_stream }

-- What a streamed program is known to do: it is read back, whatever follows it.
pub record ReadsBack (x : Externals) : Type 0 where
  pub at :
      (p : SExp) (more : Bytes) → x.sexp_from_stream (x.sexp_to_stream p ++ more) ≡ ok (p, more)
