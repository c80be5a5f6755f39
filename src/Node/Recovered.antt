-- ===== src/Node/Recovered.antt =====
-- packages/raft-node/src/node.ts: a node that is made again from the storage of one that stopped.
use node_raft_rsm.Base.{◌≡◌, Text, Bytes, false, Option, Result, ok}
use node_raft_rsm.Types.{LogEntry, Snapshot}
use node_raft_rsm.Core.State.{RaftCore}
use node_raft_rsm.Storage.{MemoryRaftStorage}
use node_raft_rsm.Node.{Node}
use node_raft_rsm.Node.Processing.{Synced}
use node_raft_rsm.Node.Recovery.{RecoveryError}

module _ {Command Machine Value : Type 0} (decode : Bytes → Option Command)
    (run : Command → LogEntry → Machine → Option (Value × Machine)) (digest : Bytes → Text)
    (restore_snapshot : Snapshot → Machine → Option Machine) where
  -- The core with everything that is committed applied.
  abbrev caught_up : RaftCore → RaftCore
  caught_up c = record c { applied_index = c.commit_index }

  -- What a node that was made again holds of the core `c` that stopped.
  pub record Recovered (c : RaftCore) (q : Machine) (n : Node Machine Value) : Type 0 where
    pub synced : Synced decode run digest n
    pub machine : n.machine ≡ q
    pub term : n.core.current_term ≡ c.current_term
    pub vote : n.core.voted_for ≡ c.voted_for
    pub entries : n.core.entries ≡ c.entries
    pub commit : n.core.commit_index ≡ c.commit_index
    pub applied : n.core.applied_index ≡ c.commit_index
    pub stopped : n.started ≡ false

  pub record Creates (c : RaftCore) (q : Machine)
      (r : Result RecoveryError (Node Machine Value) × MemoryRaftStorage) : Type 0 where
    pub node : Node Machine Value
    pub fine : r.0 ≡ ok node
    pub same_storage : r.1 ≡ node.storage
    pub recovered : Recovered c q node
