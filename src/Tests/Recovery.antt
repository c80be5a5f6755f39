-- ===== src/Tests/Recovery.antt =====
-- A node is made again from a storage with two committed entries, of which one was applied.
use node_raft_rsm.Base.{none, List, Bytes, Option}
use node_raft_rsm.Types.{Snapshot}
use node_raft_rsm.Core.State.{RaftCore}
use node_raft_rsm.Core.Step.{fresh}
use node_raft_rsm.Node.Recovery.{NodeOptions}
use node_raft_rsm.Tests.Elections.{node_a, trio_options}
use node_raft_rsm.Tests.Machines.{two_entries}

abbrev no_restore : Snapshot → List Bytes → Option (List Bytes)
no_restore s m = none

abbrev stopped_core : RaftCore
stopped_core = record (fresh (trio_options node_a)) {
  current_term = 1;
  entries = two_entries;
  commit_index = 2;
  applied_index = 1;
}

abbrev node_options : NodeOptions
node_options = record { core = trio_options node_a; election_max = 20; command_retention = none }
