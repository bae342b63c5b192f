-- ===== src/Tests/Walks.antt =====
-- The walk of `do_get_recent_blocks` over a chain of three blocks.
use ledger_sim.Prelude.{ℕ, false, ◌≡◌, refl, none, some, inl, inr, [], ◌∷◌, bytes_eq, arith}
use ledger_sim.Errors.{ok}
use ledger_sim.Hashable.Eor.{zero}
use ledger_sim.Hashable.Blocks.{Header, header, HeaderPointer, bare, held}
use ledger_sim.Storage.RamDb.{empty, hash_preimage}
use ledger_sim.Ledger.{genesis_hash}
use ledger_sim.Ledger.Listing.{header_eq, is_first, get_recent_blocks}
use ledger_sim.Ledger.Listing.Chain.{IsChain}
use ledger_sim.Ledger.Listing.Recent.{Contains, bodies_since, get_recent_blocks_lem}
use ledger_sim.Tests.Toy.{toy}
use ledger_sim.Tests.Block.{body}

-- a header on top of another one, whose hashes are made up
abbrev on_top : ℕ → HeaderPointer → Header
on_top n previous =
    header previous zero n (record { hash = n ∷ []; held = none })
      (record { hash = n ∷ []; held = some body }) []

abbrev first_header : Header
first_header = on_top 1 (bare genesis_hash)

abbrev second_header : Header
second_header = on_top 2 (held (1 ∷ []) first_header)

abbrev chain_tip : HeaderPointer
chain_tip = held (3 ∷ []) (on_top 3 (held (2 ∷ []) second_header))

three_blocks : IsChain 3 chain_tip
three_blocks = (
  3 ∷ [],
  on_top 3 (held (2 ∷ []) second_header),
  body,
  refl,
  refl,
  (λ e. cc),
  (
    2 ∷ [],
    second_header,
    body,
    refl,
    refl,
    (λ e. cc),
    (1 ∷ [], first_header, body, refl, refl, (λ e. cc), refl),
  ),
)

second_is_there : Contains second_header chain_tip
unfolding header_eq bytes_eq
second_is_there = inr (inl refl)

second_is_later : is_first second_header ≡ false
unfolding is_first bytes_eq
second_is_later = refl

get_recent_blocks_lem_example :
    get_recent_blocks toy (hash_preimage empty) 3 chain_tip second_header
    ≡ some (ok (bodies_since second_header chain_tip))
get_recent_blocks_lem_example =
    get_recent_blocks_lem toy (hash_preimage empty) second_header second_is_later 2 3 chain_tip
      three_blocks second_is_there (omega arith)
