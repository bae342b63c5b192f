-- ===== src/Externals.antt =====
-- What the program takes from code outside the repository: the debugger, hashlib and blspy's hash, blspy's BLS
-- signatures and clvm. These are the parameters of the model, in one record; their documented
-- behaviour, where a theorem relies on it, is a named hypothesis of that theorem.
use ledger_sim.Prelude.{ℕ, Bool, List, [], ◌∷◌, Bytes}
use ledger_sim.Prelude.Int.{ℤ}
use ledger_sim.Errors.{Res, Exception}

-- The s-expression that a `Program` wraps, as `Program.tree_hash` takes it apart: `listp()` holds of
-- a pair, whose parts are `first()` and `rest()`, and anything else has `as_atom()`.
pub data SExp : Type 0 where
  atom : Bytes → SExp
  pair : SExp → SExp → SExp

-- What `as_python()` returns: bytes, or a list of such values.
mutual
  pub data PyVal : Type 0 where
    bytes : Bytes → PyVal
    list : PyVals → PyVal

  pub data PyVals : Type 0 where
    nil : PyVals
    cons : PyVal → PyVals → PyVals

abbrev pub to_list : PyVals → List PyVal
to_list nil = []
to_list (cons v vs) = v ∷ to_list vs

-- A Python generator: it ends, or raises, or yields a value and goes on.
pub data Iter (A : Type 0) : Type 0 where
  stop : Iter A
  fails : Exception → Iter A
  yields : A → Iter A → Iter A

pub record Externals : Type 1 where
  -- Python's breakpoint(), which lets a debugger stop the program: it returns where the program goes on,
  -- or raises, as bdb does where the debugger quits
  pub breakpoint : Res (Unit {0})
  -- hashlib.sha256(b).digest()
  pub sha256 : Bytes → Bytes
  -- blspy.Util.hash256
  pub hash256 : Bytes → Bytes
  -- blspy.PublicKey and blspy.PrependSignature
  pub PublicKey : Type 0
  pub PrependSignature : Type 0
  pub public_key_from_bytes : Bytes → Res PublicKey
  pub signature_from_bytes : Bytes → Res PrependSignature
  pub verify : PrependSignature → List Bytes → List PublicKey → Res Bool
  pub aggregate : List PrependSignature → Res PrependSignature
  pub serialize : PrependSignature → Bytes
  -- blspy.PrivateKey: `from_bytes`, `serialize`, `get_public_key` and `sign_prepend_prehashed`, and
  -- the serialized form of a public key
  pub PrivateKey : Type 0
  pub private_key_from_bytes : Bytes → Res PrivateKey
  pub private_key_bytes : PrivateKey → Bytes
  pub public_key_of : PrivateKey → PublicKey
  pub public_key_bytes : PublicKey → Bytes
  pub sign_prepend_prehashed : PrivateKey → Bytes → PrependSignature
  -- blspy.ExtendedPrivateKey.from_seed(seed).private_child(index).get_private_key()
  pub private_child : Bytes → ℕ → PrivateKey
  -- clvm.casts
  pub int_from_bytes : Bytes → Res ℤ
  -- the same function, called with a list
  pub int_from_list : PyVals → Res ℤ
  pub int_to_bytes : ℤ → Bytes
  -- clvm.SExp: `as_iter`, `as_python`, and `to` of a list of s-expressions
  pub as_iter : SExp → Iter SExp
  pub as_python : SExp → Res PyVal
  pub to_sexp : List SExp → SExp
  -- the result of clvm.run_program with the standard operators; its cost is dropped by the callers
  pub run_program : SExp → SExp → Res SExp
  -- clvm.serialize
  pub sexp_to_stream : SExp → Bytes
  pub sexp_from_stream : Bytes → Res (SExp × Bytes)
  -- clvm_tools.binutils.assemble("#q")
  pub quote_keyword : SExp
  -- clvm_tools.curry, without its cost
  pub curry : SExp → List SExp → Res SExp
  -- the programs that clvm_tools compiles from the .clvm files, by `load_clvm`
  pub p2_conditions_mod : SExp
  pub p2_delegated_conditions_mod : SExp
  pub p2_delegated_puzzle_mod : SExp
