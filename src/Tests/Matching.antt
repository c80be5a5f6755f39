-- ===== src/Tests/Matching.antt =====
-- The leader of three nodes sends the first entry of its term to another node.
use node_raft_rsm.Base.{◌≡◌, refl, inl, none, some, [], ◌∷◌, arith}
use node_raft_rsm.Types.{LogEntry, noop, RaftMessage, append_entries_request, message}
use node_raft_rsm.Core.State.{find_entry}
use node_raft_rsm.Core.Step.{advance}
use node_raft_rsm.Cluster.{System, after_event, update, event_at, advance_at, Run, next}
use node_raft_rsm.Cluster.Matching.{log_matching}
use node_raft_rsm.Tests.Elections.{
  program, node_a, node_b, trio, silent_trio, silent_trio-Started, from_to, led, led-Run, arrived,
}

abbrev first_noop : LogEntry
first_noop = record { index = 1; term = 1; type = noop; payload = []; command_id = none }

abbrev copy_wanted : RaftMessage
copy_wanted = append_entries_request (record {
  base = from_to node_a node_b;
  prev_log_index = 0;
  prev_log_term = 0;
  entries = first_noop ∷ [];
  leader_commit = 0;
})

abbrev ready_b : System
ready_b = record led { core = update led.core node_b (advance 1 (led.core node_b)).1 }

abbrev copied : System
copied = after_event ready_b node_b (message copy_wanted)

copied-Run : Run trio silent_trio copied
unfolding program
copied-Run = next (next led-Run (advance_at node_b 1 refl)) (
    event_at node_b (message copy_wanted) refl
      (λ m e. arrived ready_b.sent copy_wanted m e (inl refl)))

copied_a : find_entry (copied.core node_a).entries 1 ≡ some first_noop
unfolding program
copied_a = refl

copied_b : find_entry (copied.core node_b).entries 1 ≡ some first_noop
unfolding program
copied_b = refl

log_matching_example :
    find_entry (copied.core node_a).entries 1 ≡ find_entry (copied.core node_b).entries 1
unfolding program
log_matching_example =
    log_matching silent_trio-Started copied-Run node_a node_b refl refl 1 first_noop first_noop
      copied_a copied_b refl 1 (omega arith)
