-- ===== src/Tests/Stores.antt =====
-- The durable state and the network at concrete inputs.
use node_raft_rsm.Base.{◌≡◌, refl, inl, false, none, some, [], ◌∷◌, arith, ℕ}
use node_raft_rsm.Types.{
  noop, RaftMessage, request_vote_request, PersistBatch, valid_id, all_id_chars,
}
use node_raft_rsm.Durable.{
  blank, persist_durable, compact_durable, persist_call, compact_call, entries_after, shortened,
  lengthened, check_hard_state, check_applied,
}
use node_raft_rsm.Durable.Growth.{Intact, Grew}
use node_raft_rsm.Durable.Invariant.{compact_durable-unchanged, run_calls, run_calls-Grew}
use node_raft_rsm.Network.{
  MemoryNetwork, quiet_network, edge, edge_from, edge_to, enqueue, partition, hand_over, take_out,
  drop_by_id,
}
use node_raft_rsm.Network.Queue.{
  Tidy, run_operation, enqueue_op, run_operation-Tidy, Removed, drop_by_id-Removed,
}
use node_raft_rsm.Network.Edges.{partition-blocks, edge-ends}
use node_raft_rsm.Tests.Elections.{program, node_a, node_b, node_c, from_to}

abbrev voted_batch : PersistBatch
voted_batch = record {
  hard_state = some (record { current_term = 1; voted_for = some node_a; commit_index = 1 });
  truncate_from = none;
  entries = record { index = 1; term = 1; type = noop; payload = []; command_id = none } ∷ [];
  snapshot = none;
  applied_index = some 1;
}

blank-Intact : Intact blank
unfolding program
blank-Intact = record {
  contiguous = tt;
  floor = omega arith;
  ceiling = omega arith;
  done = omega arith;
}

run_calls-Grew_example :
    Grew blank
      (run_calls (persist_call voted_batch ∷ compact_call 1 ∷ persist_call voted_batch ∷ []) blank)
run_calls-Grew_example =
    run_calls-Grew (persist_call voted_batch ∷ compact_call 1 ∷ persist_call voted_batch ∷ []) blank
      (refl, (tt, (refl, tt))) blank-Intact

written_index : (persist_durable voted_batch blank).1.applied_index ≡ 1
unfolding program persist_durable entries_after shortened lengthened check_hard_state check_applied
written_index = refl

compact_durable-unchanged_example : (compact_durable 1 blank).1 ≡ blank
compact_durable-unchanged_example = compact_durable-unchanged 1 blank blank-Intact

abbrev ballot_request : RaftMessage
ballot_request =
    request_vote_request
      (record { base = from_to node_a node_b; last_log_index = 0; last_log_term = 0 })

quiet-Tidy : Tidy quiet_network
quiet-Tidy = record { once = λ i. omega arith; unused = λ i l. refl }

run_operation-Tidy_example : Tidy (run_operation (enqueue_op ballot_request) quiet_network)
run_operation-Tidy_example = run_operation-Tidy (enqueue_op ballot_request) quiet_network quiet-Tidy

abbrev one_pending : MemoryNetwork
one_pending = run_operation (enqueue_op ballot_request) quiet_network

one_pending-Tidy : Tidy one_pending
one_pending-Tidy = run_operation-Tidy (enqueue_op ballot_request) quiet_network quiet-Tidy

drop_by_id-Removed_example : Removed 1 one_pending (drop_by_id 1 one_pending)
drop_by_id-Removed_example = drop_by_id-Removed 1 one_pending one_pending-Tidy

partition-blocks_example :
    (enqueue ballot_request (partition (node_a ∷ []) (node_b ∷ node_c ∷ []) quiet_network)
      ≡ partition (node_a ∷ []) (node_b ∷ node_c ∷ []) quiet_network)
    × ((k id : ℕ)
        → hand_over
            (λ node m n. n)
            k
            (some (record { id = id; message = ballot_request }))
            (partition (node_a ∷ []) (node_b ∷ node_c ∷ []) quiet_network)
          ≡ (
            false,
            record (partition (node_a ∷ []) (node_b ∷ node_c ∷ []) quiet_network) {
              queue =
                  take_out k (partition (node_a ∷ []) (node_b ∷ node_c ∷ []) quiet_network).queue;
            },
          ))
unfolding program
partition-blocks_example =
    partition-blocks (λ node m n. n) (node_a ∷ []) (node_b ∷ node_c ∷ []) quiet_network
      ballot_request (inl (refl, refl))

edge-ends_example :
    (edge_from (edge node_a node_b) ≡ node_a) × (edge_to (edge node_a node_b) ≡ node_b)
unfolding valid_id all_id_chars
edge-ends_example = edge-ends node_a node_b refl
