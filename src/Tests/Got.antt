-- ===== src/Tests/Got.antt =====
-- A client's view of a tip.
use ledger_sim.Prelude.{◌≡◌, refl, [], ◌∷◌, Bytes, replicate}
use ledger_sim.Prelude.Int.{pos}
use ledger_sim.Errors.{ok}
use ledger_sim.Hashable.Blocks.{bare}
use ledger_sim.Remote.Streamable.{plain_number}
use ledger_sim.Ledger.Api.{Answer, tip}
use ledger_sim.Ledger.Api.Values.{tip_hash_key, tip_index_key, genesis_hash_key}
use ledger_sim.Clients.{as_sent, header_pointer, of_fields, get_tip_name}
use ledger_sim.Clients.Gets.{gets_tip, received, received_lem}
use ledger_sim.Tests.Toy.{toy, toy_reads_back}

abbrev no_text : Answer → Bytes
no_text a = []

received_lem_example :
    received toy no_text get_tip_name (tip (bare (replicate 32 3), 4, replicate 32 0))
    ≡ ok (
        of_fields (
          (tip_hash_key, header_pointer (bare (replicate 32 3)))
          ∷ (tip_index_key, as_sent (plain_number (pos 4)))
          ∷ (genesis_hash_key, header_pointer (bare (replicate 32 0)))
          ∷ []))
received_lem_example =
    received_lem toy no_text get_tip_name (tip (bare (replicate 32 3), 4, replicate 32 0)) _
      toy_reads_back (gets_tip (bare (replicate 32 3)) 4 (replicate 32 0) refl refl)
