-- ===== src/Tests/Retries.antt =====
-- A leader that retains one completed command, and completes another one.
use node_raft_rsm.Base.{◌≡◌, refl, [], ◌∷◌, Bytes, List, ok, err, same, if◌then◌else◌, some, arith}
use node_raft_rsm.Types.{LogEntry, command, leader}
use node_raft_rsm.Node.{Node, command_id_conflict, completes, propose_command}
use node_raft_rsm.Node.Retries.{Completion, after_completions, propose-completed}
use node_raft_rsm.Tests.Elections.{program, node_a, node_b, node_c}
use node_raft_rsm.Tests.Machines.{
  decode_all, append_all_bytes, keep_bytes, small_node, two_committed,
}

abbrev leading_node : Node (List Bytes) Bytes
leading_node = record small_node {
  core = record two_committed { role = leader };
  completed = (node_c, record { hash = node_c; result = node_c }) ∷ [];
}

abbrev applied_entry : LogEntry
applied_entry = record {
  index = 2;
  term = 1;
  type = command;
  payload = node_b;
  command_id = some node_a;
}

-- Another command completes after it, and two are retained.
abbrev other_completion : Completion decode_all append_all_bytes keep_bytes
other_completion = record { entry = applied_entry; id = node_b; value = node_b }

abbrev roomy_node : Node (List Bytes) Bytes
roomy_node = record leading_node { retention = 2 }

abbrev completed_node : Node (List Bytes) Bytes
completed_node =
    after_completions decode_all append_all_bytes keep_bytes (other_completion ∷ [])
      (completes decode_all append_all_bytes keep_bytes applied_entry node_a node_c roomy_node)

propose-completed_example :
    propose_command decode_all append_all_bytes keep_bytes node_a node_b completed_node ≡ (
      if same (keep_bytes node_b) (keep_bytes node_b)
          then ok (some node_c)
          else err command_id_conflict,
      completed_node,
    )
unfolding program
propose-completed_example =
    propose-completed decode_all append_all_bytes keep_bytes applied_entry node_a node_c node_b
      (other_completion ∷ []) roomy_node completed_node refl (refl, tt) (omega arith) refl refl refl
      refl
