-- ===== src/Ledger/Api/Methods.antt =====
-- The methods `do_XXX` of LedgerAPI in ledger/ledger_api.py by their names, as the API of a server.
use ledger_sim.Prelude.{Option, none, some, List, [], ◌∷◌, Bytes}
use ledger_sim.Prelude.Dict.{Dict, lookup}
use ledger_sim.Errors.{Res, ok, raise, type_error, ◌>>=◌}
use ledger_sim.Externals.{Externals}
use ledger_sim.Atoms.SizedBytes.{bytes32}
use ledger_sim.Hashable.Blocks.{Body, Header, header_codec}
use ledger_sim.Hashable.SpendBundle.{spend_bundle_codec}
use ledger_sim.Storage.Heap.{Heap}
use ledger_sim.Remote.Streamable.{
  Plain, PlainEntries, plain_none, plain_text, plain_dict, no_plain_entries, plain_entry_then,
}
use ledger_sim.Remote.Decorators.{transform_args}
use ledger_sim.Remote.Server.{Api}
use ledger_sim.Ledger.{
  Ledger, push_tx, next_block, skip_milliseconds, get_tip, all_unspent_names, preimage, unspent,
}
use ledger_sim.Ledger.Api.{
  raw, bundle, header, hash, Answer, pong, accepted, tip, blocks, block, names, blob, entry, clock,
  Keywords, Served, Method, decode, decode_milliseconds, tx_key, most_recent_header_key,
  coinbase_puzzle_hash_key, fees_puzzle_hash_key, ms_key, hash_key, coin_name_key, m_key, bind,
  the_bundle, the_header, the_hash, the_milliseconds, the_key, with_arguments, call, reads,
}

-- a value of a message
abbrev pub value_of : Plain → Option Plain
value_of plain_none = none
value_of p = some p

-- `**args`: a dictionary whose keys are texts
unfoldable pub keywords_of : PlainEntries → Res Keywords
keywords_of no_plain_entries = ok []
keywords_of (plain_entry_then (plain_text k) v d) = do
  more ← keywords_of d
  ok ((k, raw (value_of v)) ∷ more)
keywords_of (plain_entry_then k v d) = raise type_error

unfoldable pub keywords_of_value : Option Plain → Res Keywords
unfolding keywords_of
keywords_of_value (some (plain_dict d)) = keywords_of d
keywords_of_value v = raise type_error

-- the methods
pub data Command : Type 0 where
  do_ping do_push_tx do_get_tip do_get_recent_blocks do_get_all_blocks do_next_block : Command
  do_all_unspents do_hash_preimage do_unspent_for_coin_name do_skip_milliseconds : Command

-- the names of the methods, after "do_"
abbrev pub commands : Dict Command
commands =
    (112 ∷ 105 ∷ 110 ∷ 103 ∷ [], do_ping)
    ∷ (112 ∷ 117 ∷ 115 ∷ 104 ∷ 95 ∷ 116 ∷ 120 ∷ [], do_push_tx)
    ∷ (103 ∷ 101 ∷ 116 ∷ 95 ∷ 116 ∷ 105 ∷ 112 ∷ [], do_get_tip)
    ∷ (
      103 ∷ 101 ∷ 116 ∷ 95 ∷ 114 ∷ 101 ∷ 99 ∷ 101 ∷ 110 ∷ 116 ∷ 95 ∷ 98 ∷ 108 ∷ 111 ∷ 99 ∷ 107 ∷ 115
          ∷ [],
      do_get_recent_blocks,
    )
    ∷ (
      103 ∷ 101 ∷ 116 ∷ 95 ∷ 97 ∷ 108 ∷ 108 ∷ 95 ∷ 98 ∷ 108 ∷ 111 ∷ 99 ∷ 107 ∷ 115 ∷ [],
      do_get_all_blocks,
    )
    ∷ (110 ∷ 101 ∷ 120 ∷ 116 ∷ 95 ∷ 98 ∷ 108 ∷ 111 ∷ 99 ∷ 107 ∷ [], do_next_block)
    ∷ (97 ∷ 108 ∷ 108 ∷ 95 ∷ 117 ∷ 110 ∷ 115 ∷ 112 ∷ 101 ∷ 110 ∷ 116 ∷ 115 ∷ [], do_all_unspents)
    ∷ (
      104 ∷ 97 ∷ 115 ∷ 104 ∷ 95 ∷ 112 ∷ 114 ∷ 101 ∷ 105 ∷ 109 ∷ 97 ∷ 103 ∷ 101 ∷ [],
      do_hash_preimage,
    )
    ∷ (
      117 ∷ 110 ∷ 115 ∷ 112 ∷ 101 ∷ 110 ∷ 116 ∷ 95 ∷ 102 ∷ 111 ∷ 114 ∷ 95 ∷ 99 ∷ 111 ∷ 105 ∷ 110
          ∷ 95 ∷ 110 ∷ 97 ∷ 109 ∷ 101 ∷ [],
      do_unspent_for_coin_name,
    )
    ∷ (
      115 ∷ 107 ∷ 105 ∷ 112 ∷ 95 ∷ 109 ∷ 105 ∷ 108 ∷ 108 ∷ 105 ∷ 115 ∷ 101 ∷ 99 ∷ 111 ∷ 110 ∷ 100
          ∷ 115 ∷ [],
      do_skip_milliseconds,
    )
    ∷ []

-- `getattr(api, "do_%s" % c, None)`; only a text gives the name of a method.
unfoldable pub command_named : Option Plain → Option Command
command_named (some (plain_text c)) = lookup c commands
command_named c = none

-- what the answer to a key is, where the key may be one that is never there
abbrev pub at_key : {A : Type 0} → (Bytes → Option A) → Option Bytes → Option A
at_key f none = none
at_key f (some k) = f k

module _ (x : Externals) (all_blocks : Ledger → Heap → Res (List (Option Body)))
    (recent_blocks : Header → Ledger → Heap → Res (List (Option Body))) where
  -- the arguments of the methods that `@api_request` decorates
  unfoldable pub push_tx_arguments : Keywords → Res Keywords
  push_tx_arguments kwargs = do
    new ← transform_args ((tx_key, decode (spend_bundle_codec x) bundle) ∷ []) kwargs
    bind (tx_key ∷ []) new

  unfoldable pub recent_blocks_arguments : Keywords → Res Keywords
  recent_blocks_arguments kwargs = do
    new ← transform_args ((most_recent_header_key, decode header_codec header) ∷ []) kwargs
    bind (most_recent_header_key ∷ []) new

  unfoldable pub next_block_arguments : Keywords → Res Keywords
  next_block_arguments kwargs = do
    new ←
        transform_args
          ((coinbase_puzzle_hash_key, decode bytes32 hash)
            ∷ (fees_puzzle_hash_key, decode bytes32 hash)
            ∷ [])
          kwargs
    bind (coinbase_puzzle_hash_key ∷ fees_puzzle_hash_key ∷ []) new

  unfoldable pub skip_milliseconds_arguments : Keywords → Res Keywords
  skip_milliseconds_arguments kwargs = do
    new ← transform_args ((ms_key, decode_milliseconds) ∷ []) kwargs
    bind (ms_key ∷ []) new

  -- the methods; `do_all_unspents` takes any keywords
  unfoldable pub perform : Command → Method
  perform do_ping kwargs = with_arguments (bind (m_key ∷ []) kwargs) (λ ks s. (ok pong, s))
  perform do_push_tx kwargs =
      with_arguments (do ks ← push_tx_arguments kwargs; the_bundle (lookup tx_key ks))
        (λ tx. call (λ u. accepted) (push_tx x tx))
  perform do_get_tip kwargs =
      with_arguments (bind [] kwargs) (λ ks. reads tip (λ l heap. get_tip l))
  perform do_get_recent_blocks kwargs =
      with_arguments
        (do ks ← recent_blocks_arguments kwargs; the_header (lookup most_recent_header_key ks))
        (λ h. call blocks (λ l heap. (recent_blocks h l heap, l, heap)))
  perform do_get_all_blocks kwargs =
      with_arguments (bind [] kwargs) (λ ks. call blocks (λ l heap. (all_blocks l heap, l, heap)))
  perform do_next_block kwargs =
      with_arguments
        (do
          ks ← next_block_arguments kwargs
          ph ← the_hash (lookup coinbase_puzzle_hash_key ks)
          fees_ph ← the_hash (lookup fees_puzzle_hash_key ks)
          ok (ph, fees_ph))
        (λ (t : Bytes × Bytes). call block (next_block x t.0 t.1))
  perform do_all_unspents kwargs = reads names all_unspent_names
  perform do_hash_preimage kwargs =
      with_arguments (do ks ← bind (hash_key ∷ []) kwargs; the_key (lookup hash_key ks))
        (λ k. reads blob (λ l heap. at_key (λ h. preimage h l heap) k))
  perform do_unspent_for_coin_name kwargs =
      with_arguments (do ks ← bind (coin_name_key ∷ []) kwargs; the_key (lookup coin_name_key ks))
        (λ k. reads entry (λ l heap. at_key (λ n. unspent n l heap) k))
  perform do_skip_milliseconds kwargs =
      with_arguments
        (do ks ← skip_milliseconds_arguments kwargs; the_milliseconds (lookup ms_key ks))
        (λ ms. call clock (skip_milliseconds ms))

  unfoldable pub ledger_api : Api Plain Keywords Answer Served
  unfolding command_named keywords_of_value perform
  ledger_api = record {
    method = λ c. elim (command_named c) [ none ↦ none | some m ↦ some (perform m) ];
    as_keywords = keywords_of_value;
    no_keywords = [];
  }
