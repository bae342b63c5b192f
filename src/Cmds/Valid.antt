-- ===== src/Cmds/Valid.antt =====
-- The ledger that `run_ledger_api` of cmds/ledger_sim.py serves.
use ledger_sim.Prelude.{◌≢◌, refl, Option, List, [], ◌∷◌}
use ledger_sim.Errors.{Res, Exception}
use ledger_sim.Externals.{Externals}
use ledger_sim.Hashable.Blocks.{Body, Header}
use ledger_sim.Storage.Heap.{Heap}
use ledger_sim.Remote.Streamable.{Plain}
use ledger_sim.Remote.Server.{Message, MapError}
use ledger_sim.Farming.Signing.{IsSha256}
use ledger_sim.Ledger.{Ledger, genesis_hash, new_ledger}
use ledger_sim.Ledger.Invariant.{IsValid}
use ledger_sim.Ledger.Reach.{Reaches, starts, Reaches-IsValid}
use ledger_sim.Ledger.Api.Serves.{api_server-IsReached}
use ledger_sim.Cmds.{run_ledger_api, no_objects}

module _ (x : Externals) (all_blocks : Ledger → Heap → Res (List (Option Body)))
    (recent_blocks : Header → Ledger → Heap → Res (List (Option Body)))
    (on_error : Exception → MapError) where
  -- Where blspy's hash is SHA-256 and the plot key is not zero: whatever messages the ledger's server
  -- gets, from whatever connections and in whatever order, well formed or not, and whatever the listings
  -- of blocks return and `map_aiter` makes of an exception, the ledger is valid afterwards, as `IsValid` says, and calls of its three methods that
  -- change it have led to it.
  pub run_ledger_api-IsValid :
      (ms : List (Message Plain))
      → IsSha256 x
      → x.hash256 (4 ∷ []) ≢ genesis_hash
      → Reaches x
          (run_ledger_api x all_blocks recent_blocks on_error ms).1.0
          (run_ledger_api x all_blocks recent_blocks on_error ms).1.1
        × IsValid x
            (run_ledger_api x all_blocks recent_blocks on_error ms).1.0
            (run_ledger_api x all_blocks recent_blocks on_error ms).1.1
  unfolding run_ledger_api
  run_ledger_api-IsValid ms sha key =
      let reached =
        api_server-IsReached x all_blocks recent_blocks on_error ms (new_ledger 0, no_objects)
          (starts 0 no_objects refl) in
      (reached, Reaches-IsValid x sha key _ _ reached)
