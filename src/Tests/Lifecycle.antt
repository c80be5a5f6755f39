-- ===== src/Tests/Lifecycle.antt =====
-- A node that failed while a Ready was outstanding, and the calls and messages that follow.
use node_raft_rsm.Base.{refl, none, some, List, [], ◌∷◌, Bytes, false}
use node_raft_rsm.Types.{RaftReady}
use node_raft_rsm.Node.{Node}
use node_raft_rsm.Node.Lifecycle.{
  NodeCall, starts, stops, heartbeats, campaigns, proposes, receives, Frozen, after_calls,
  failed_node-Frozen,
}
use node_raft_rsm.Tests.Elections.{node_a, node_b}
use node_raft_rsm.Tests.Machines.{
  decode_all, append_all_bytes, keep_bytes, small_node, two_committed,
}
use node_raft_rsm.Tests.Steps.{append_first}

abbrev waiting : RaftReady
waiting = record {
  id = 1;
  hard_state = none;
  truncate_from = none;
  unstable_entries = [];
  snapshot = none;
  outbound_messages = [];
  committed_entries = [];
}

abbrev failed : Node (List Bytes) Bytes
failed = record small_node {
  core = record two_committed { outstanding = some waiting };
  healthy = false;
}

abbrev calls : List (NodeCall decode_all append_all_bytes keep_bytes)
calls =
    heartbeats ∷ receives append_first ∷ proposes node_a node_b ∷ stops ∷ starts ∷ campaigns 15 ∷ []

failed_node-Frozen_example :
    Frozen decode_all append_all_bytes keep_bytes failed
      (after_calls decode_all append_all_bytes keep_bytes calls failed)
failed_node-Frozen_example =
    failed_node-Frozen decode_all append_all_bytes keep_bytes calls failed waiting refl refl
