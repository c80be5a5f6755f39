-- ===== src/Node/Recovery.antt =====
-- packages/raft-node/src/node.ts: `create`, which makes a node from what its storage holds. The
-- restoring of a snapshot is a parameter, as the codec and the state machine are.
use node_raft_rsm.Base.{
  ℕ, Text, Bytes, true, false, ◌||◌, ltb, leb, if◌then◌else◌, Option, none, some, List, [], ◌∷◌,
  Result, ok, err, Exec,
}
use node_raft_rsm.Types.{
  EntryType, command, configuration, noop, LogEntry, Snapshot, PersistedRaftState, RaftCoreOptions,
}
use node_raft_rsm.Core.State.{RaftCore, Error, boundary}
use node_raft_rsm.Core.Step.{create}
use node_raft_rsm.Storage.{MemoryRaftStorage, StorageError, load, persist}
use node_raft_rsm.Storage.Refinement.{restarted}
use node_raft_rsm.Node.{Node, applied_batch, ran}

pub data RecoveryError : Type 0 where
  election_below_heartbeat election_range : RecoveryError
  no_recovered_id restore_failed replay_failed : RecoveryError
  storage_failed : StorageError → RecoveryError
  core_refused : Error → RecoveryError

-- The options of the core hold the members, the heartbeat interval and the minimum timeout.
pub record NodeOptions : Type 0 where
  pub core : RaftCoreOptions
  pub election_max : ℕ
  pub command_retention : Option ℕ

abbrev pub validate_options : NodeOptions → Option RecoveryError
validate_options o =
    if leb o.core.election_timeout o.core.heartbeat_interval
    then some election_below_heartbeat
    else if ltb o.election_max o.core.election_timeout
    then some election_range
    else none

module _ {Command Machine Value : Type 0} (decode : Bytes → Option Command)
    (run : Command → LogEntry → Machine → Option (Value × Machine)) (digest : Bytes → Text)
    (restore_snapshot : Snapshot → Machine → Option Machine) where
  abbrev pub restored_machine : Option Snapshot → Machine → Option Machine
  restored_machine none m = some m
  restored_machine (some s) m = restore_snapshot s m

  abbrev pub replayed : Option (Value × Machine) → Result RecoveryError Machine
  replayed none = err replay_failed
  replayed (some (value, m)) = ok m

  abbrev pub replay_command : LogEntry → Option Text → Machine → Result RecoveryError Machine
  replay_command e none m = err no_recovered_id
  replay_command e (some id) m = replayed (ran decode run digest e (decode e.payload) m)

  abbrev pub replay_kind : EntryType → LogEntry → Machine → Result RecoveryError Machine
  replay_kind command e m = replay_command e e.command_id m
  replay_kind configuration e m = ok m
  replay_kind noop e m = ok m

  abbrev pub go_on :
      (Machine → Result RecoveryError Machine)
      → Result RecoveryError Machine
      → Result RecoveryError Machine
  go_on f (err x) = err x
  go_on f (ok m) = f m

  -- The loop over the entries that were persisted, behind the snapshot and up to the commit index.
  abbrev pub replay_committed : ℕ → ℕ → List LogEntry → Machine → Result RecoveryError Machine
  replay_committed after commit [] m = ok m
  replay_committed after commit (e ∷ es) m =
      let rest = λ (k : Machine). replay_committed after commit es k in
      if leb e.index after || ltb commit e.index
      then rest m
      else go_on rest (replay_kind e.type e m)

  abbrev pub new_node : NodeOptions → RaftCore → MemoryRaftStorage → Machine → Node Machine Value
  new_node o c s m = record {
    core = c;
    storage = s;
    machine = m;
    pending = [];
    completed = [];
    retention = elim o.command_retention [ none ↦ 10000 | some n ↦ n ];
    started = false;
    healthy = true;
    sent = [];
    answers = [];
  }

  abbrev pub Creation : Type 0
  Creation = Result RecoveryError (Node Machine Value) × MemoryRaftStorage

  abbrev pub with_core :
      NodeOptions → Machine → MemoryRaftStorage → Result Error RaftCore → Creation
  with_core o m s (err x) = (err (core_refused x), s)
  with_core o m s (ok c) = (ok (new_node o c s m), s)

  abbrev pub with_state :
      NodeOptions → Machine → Result StorageError PersistedRaftState × MemoryRaftStorage → Creation
  with_state o m (err x, s) = (err (storage_failed x), s)
  with_state o m (ok p, s) = with_core o m s (create (restarted o.core p))

  abbrev pub after_catch_up :
      NodeOptions → Machine → Result StorageError Unit × MemoryRaftStorage → Creation
  after_catch_up o m (err x, s) = (err (storage_failed x), s)
  after_catch_up o m (ok _, s) = with_state o m (load s)

  abbrev pub after_replay :
      NodeOptions → PersistedRaftState → MemoryRaftStorage → Result RecoveryError Machine → Creation
  after_replay o p s (err x) = (err x, s)
  after_replay o p s (ok m) =
      if ltb p.applied_index p.hard_state.commit_index
      then after_catch_up o m (persist (applied_batch p.hard_state.commit_index) s)
      else with_state o m (ok p, s)

  abbrev pub after_restore :
      NodeOptions → PersistedRaftState → MemoryRaftStorage → Option Machine → Creation
  after_restore o p s none = (err restore_failed, s)
  after_restore o p s (some m) =
      after_replay o p s
        (replay_committed (boundary p.snapshot) p.hard_state.commit_index p.entries m)

  abbrev pub after_load :
      NodeOptions → Machine → Result StorageError PersistedRaftState × MemoryRaftStorage → Creation
  after_load o m (err x, s) = (err (storage_failed x), s)
  after_load o m (ok p, s) = after_restore o p s (restored_machine p.snapshot m)

  abbrev pub validated : NodeOptions → Machine → Option RecoveryError → MemoryRaftStorage → Creation
  validated o m (some x) s = (err x, s)
  validated o m none s = after_load o m (load s)

  unfoldable pub create_node :
      NodeOptions → Machine → Exec RecoveryError MemoryRaftStorage (Node Machine Value)
  create_node o m s = validated o m (validate_options o) s
