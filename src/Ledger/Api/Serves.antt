-- ===== src/Ledger/Api/Serves.antt =====
-- The ledger behind a server: what any messages make of it.
use ledger_sim.Prelude.{◌≡◌, Option, none, some, some_inj, List, Bytes}
use mathlib.Core.Path.{subst}
use ledger_sim.Errors.{Res, ok, raise, Exception}
use ledger_sim.Externals.{Externals}
use ledger_sim.Hashable.Blocks.{Body, Header}
use ledger_sim.Storage.Heap.{Heap}
use ledger_sim.Remote.Streamable.{Plain}
use ledger_sim.Remote.Server.{Message, MapError, api_server}
use ledger_sim.Remote.Server.Keeps.{MethodsKeep, api_server-Keeps}
use ledger_sim.Ledger.{Ledger, push_tx}
use ledger_sim.Ledger.Reach.{Reaches, then, pushes, farms, skips}
use ledger_sim.Ledger.Api.{Answer, Keywords, Served, with_arguments, call}
use ledger_sim.Ledger.Api.Methods.{
  Command, do_ping, do_push_tx, do_get_tip, do_get_recent_blocks, do_get_all_blocks, do_next_block,
  do_all_unspents, do_hash_preimage, do_unspent_for_coin_name, do_skip_milliseconds, command_named,
  perform, ledger_api,
}

module _ (x : Externals) where
  -- calls have led to this ledger
  abbrev pub IsReached : Served → Type 0
  IsReached (l, heap) = Reaches x l heap

  -- A call leaves such a ledger.
  record Leaves (t : Res Answer × Served) : Type 0 where
    left : IsReached t.1

  with_arguments-Leaves :
      {A : Type 0} (r : Res A) (f : A → Served → Res Answer × Served) (s : Served)
      → ((a : A) → Leaves (f a s))
      → IsReached s
      → Leaves (with_arguments r f s)
  unfolding with_arguments
  with_arguments-Leaves (ok a) f s keep h = keep a
  with_arguments-Leaves (raise e) f s keep h = record { left = h }

  module _ (all_blocks : Ledger → Heap → Res (List (Option Body)))
      (recent_blocks : Header → Ledger → Heap → Res (List (Option Body))) where
    perform-Leaves :
        (c : Command) (kwargs : Keywords) (s : Served)
        → IsReached s
        → Leaves (perform x all_blocks recent_blocks c kwargs s)
    unfolding perform push_tx call
    perform-Leaves do_ping kwargs s h = with_arguments-Leaves _ _ s (λ a. record { left = h }) h
    perform-Leaves do_push_tx kwargs s h =
        with_arguments-Leaves _ _ s (λ tx. record { left = then s.0 s.1 _ _ h (pushes tx s.0 s.1) })
          h
    perform-Leaves do_get_tip kwargs s h = with_arguments-Leaves _ _ s (λ a. record { left = h }) h
    perform-Leaves do_get_recent_blocks kwargs s h =
        with_arguments-Leaves _ _ s (λ a. record { left = h }) h
    perform-Leaves do_get_all_blocks kwargs s h =
        with_arguments-Leaves _ _ s (λ a. record { left = h }) h
    perform-Leaves do_next_block kwargs s h =
        with_arguments-Leaves {A = Bytes × Bytes} _ _ s
          (λ t. record { left = then s.0 s.1 _ _ h (farms t.0 t.1 s.0 s.1) }) h
    perform-Leaves do_all_unspents kwargs s h = record { left = h }
    perform-Leaves do_hash_preimage kwargs s h =
        with_arguments-Leaves _ _ s (λ a. record { left = h }) h
    perform-Leaves do_unspent_for_coin_name kwargs s h =
        with_arguments-Leaves _ _ s (λ a. record { left = h }) h
    perform-Leaves do_skip_milliseconds kwargs s h =
        with_arguments-Leaves _ _ s (λ ms. record { left = then s.0 s.1 _ _ h (skips ms s.0 s.1) })
          h

    command-Keeps :
        (m : Option Command) (f : Keywords → Served → Res Answer × Served)
        → (let method : Option (Keywords → Served → Res Answer × Served) = elim m [
          | none ↦ none
          | some c ↦ some (perform x all_blocks recent_blocks c)
        ] in
            method)
          ≡ some f
        → (kwargs : Keywords) (s : Served) → IsReached s
        → IsReached (f kwargs s).1
    command-Keeps none f e kwargs s h = cc
    command-Keeps (some c) f e kwargs s h =
        subst (λ (g : Keywords → Served → Res Answer × Served). IsReached (g kwargs s).1)
          (some_inj e) (perform-Leaves c kwargs s h).left

    ledger_api-Keeps : MethodsKeep (ledger_api x all_blocks recent_blocks) IsReached
    unfolding ledger_api
    ledger_api-Keeps c = command-Keeps (command_named c)

    pub api_server-IsReached :
        (on_error : Exception → MapError) (ms : List (Message Plain)) (s : Served)
        → IsReached s
        → IsReached (api_server (ledger_api x all_blocks recent_blocks) on_error ms s).1
    api_server-IsReached =
        api_server-Keeps (ledger_api x all_blocks recent_blocks) IsReached ledger_api-Keeps
