-- ===== src/Cmds.antt =====
-- cmds/ledger_sim.py: the server of the ledger, once it listens. The connections' messages come in one
-- order, as `join_aiters` merges them.
pub mod Valid
use ledger_sim.Prelude.{Option, List, [], ◌∷◌, ◌++◌, Bytes, replicate}
use ledger_sim.Errors.{Res, Exception}
use ledger_sim.Externals.{Externals}
use ledger_sim.Hashable.Blocks.{Body, Header}
use ledger_sim.Storage.RamDb.{empty}
use ledger_sim.Storage.Heap.{Heap}
use ledger_sim.Remote.Streamable.{Plain}
use ledger_sim.Remote.Server.{Message, Reply, MapError, api_server}
use ledger_sim.Ledger.{Ledger, new_ledger}
use ledger_sim.Ledger.Api.{Answer, Served}
use ledger_sim.Ledger.Api.Methods.{ledger_api}

-- the objects before `db` is put into the first of them
abbrev pub no_objects : Heap
no_objects r = empty

module _ (x : Externals) (all_blocks : Ledger → Heap → Res (List (Option Body)))
    (recent_blocks : Header → Ledger → Heap → Res (List (Option Body)))
    (on_error : Exception → MapError) where
  -- `run_ledger_api`: what is written for the messages, and the ledger afterwards
  unfoldable pub run_ledger_api :
      List (Message Plain) → Res (List (Option (Reply Answer × Plain))) × Served
  unfolding new_ledger
  run_ledger_api ms =
      api_server (ledger_api x all_blocks recent_blocks) on_error ms (new_ledger 0, no_objects)
