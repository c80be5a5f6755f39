-- ===== src/Node.antt =====
-- packages/raft-node/src/node.ts: what a node does with the Ready of its core, and its table of
-- commands. The codec, the state machine and the hash function are parameters, since an application
-- gives them; a storage is MemoryRaftStorage. A message handed to the transport is sent, or the
-- failure is only reported. Operations of one node run one after the other: the queue of the node has
-- it so for events, and `stop` and `propose`, which the code does not queue as a whole, are taken here
-- as run between events.
pub mod Applying
pub mod Processing
pub mod Lifecycle
pub mod Recovery
pub mod Retries
pub mod Recovered
use node_raft_rsm.Base.{
  ℕ, Bool, true, false, not, ◌||◌, Text, Bytes, same, get, put, delete, length, ltb, if◌then◌else◌,
  Option, none, some, List, [], ◌∷◌, ◌++◌, Result, ok, err, Exec, ◌>>=◌, ◌>>◌, modify, raise,
}
use node_raft_rsm.Types.{
  NodeId, EntryType, command, configuration, noop, LogEntry, RaftMessage, RaftEvent, propose,
  RaftReady, PersistBatch, Role, leader,
}
use node_raft_rsm.Core.State.{RaftCore, Error}
use node_raft_rsm.Core.Leader.{is_leader}
use node_raft_rsm.Core.Step.{step, advance}
use node_raft_rsm.Storage.{MemoryRaftStorage, StorageError, persist}
use node_raft_rsm.Storage.Refinement.{batch_of}

pub data NodeError : Type 0 where
  persist_failed applied_failed : StorageError → NodeError
  core_failed : Error → NodeError
  no_command_id state_machine_failed not_running not_leading command_id_conflict : NodeError

abbrev pub applied_batch : ℕ → PersistBatch
applied_batch index = record {
  hard_state = none;
  truncate_from = none;
  entries = [];
  snapshot = none;
  applied_index = some index;
}

pub record Completed (Value : Type 0) : Type 0 where
  pub hash : Text
  pub result : Value

pub record Node (Machine Value : Type 0) : Type 0 where
  pub core : RaftCore
  pub storage : MemoryRaftStorage
  pub machine : Machine
  pub pending : List (Text × Text)
  pub completed : List (Text × Completed Value)
  pub retention : ℕ
  pub started : Bool
  pub healthy : Bool
  pub sent : List RaftMessage
  pub answers : List (Text × Value)

-- `while (completed.size > retention)` deletes the oldest.
abbrev pub trimmed : {A : Type 0} → ℕ → List A → List A
trimmed retention [] = []
trimmed retention (x ∷ xs) =
    let rest = trimmed retention xs in if ltb retention (length (x ∷ xs)) then rest else x ∷ xs

module _ {Command Machine Value : Type 0} (decode : Bytes → Option Command)
    (run : Command → LogEntry → Machine → Option (Value × Machine)) (digest : Bytes → Text) where
  abbrev pub fail : Node Machine Value → Node Machine Value
  fail n = record n { healthy = false; pending = [] }

  -- `storage.persist(batch)`, with the storage as the call leaves it.
  abbrev pub write :
      PersistBatch → Node Machine Value → Result StorageError Unit × Node Machine Value
  write b n = ((persist b n.storage).0, record n { storage = (persist b n.storage).1 })

  -- The promise of a pending command is resolved.
  abbrev pub answered : Text → Value → Option Text → Node Machine Value → Node Machine Value
  answered id value none n = n
  answered id value (some _) n = record n {
    pending = delete n.pending id;
    answers = n.answers ++ (id, value) ∷ [];
  }

  abbrev pub completes : LogEntry → Text → Value → Node Machine Value → Node Machine Value
  completes e id value n =
      let m = answered id value (get n.pending id) n in
      record m {
        completed =
            trimmed m.retention
              (put m.completed id (record { hash = digest e.payload; result = value }));
      }

  abbrev pub after_write :
      LogEntry
      → Text
      → Value
      → Result StorageError Unit × Node Machine Value
      → Result NodeError Unit × Node Machine Value
  after_write e id value (ok _, n) = (ok tt, completes e id value n)
  after_write e id value (err x, n) = (err state_machine_failed, fail n)

  abbrev pub after_run :
      LogEntry
      → Text
      → Option (Value × Machine)
      → Node Machine Value
      → Result NodeError Unit × Node Machine Value
  after_run e id none n = (err state_machine_failed, fail n)
  after_run e id (some (value, m)) n =
      after_write e id value (write (applied_batch e.index) (record n { machine = m }))

  abbrev pub ran : LogEntry → Option Command → Machine → Option (Value × Machine)
  ran e none m = none
  ran e (some c) m = run c e m

  -- One step: the code reads `#pending` again after it has awaited the machine and the storage, when
  -- `stop` or `propose` may have changed it.
  abbrev pub apply_command :
      LogEntry → Option Text → Node Machine Value → Result NodeError Unit × Node Machine Value
  apply_command e none n = (err no_command_id, n)
  apply_command e (some id) n = after_run e id (ran e (decode e.payload) n.machine) n

  abbrev pub raw_write :
      Result StorageError Unit × Node Machine Value → Result NodeError Unit × Node Machine Value
  raw_write (ok _, n) = (ok tt, n)
  raw_write (err x, n) = (err (applied_failed x), n)

  abbrev pub apply_kind :
      EntryType → LogEntry → Node Machine Value → Result NodeError Unit × Node Machine Value
  apply_kind command e n = apply_command e e.command_id n
  apply_kind configuration e n = raw_write (write (applied_batch e.index) n)
  apply_kind noop e n = raw_write (write (applied_batch e.index) n)

  unfoldable pub apply_entry : LogEntry → Exec NodeError (Node Machine Value) Unit
  apply_entry e n = apply_kind e.type e n

  -- `for (const entry of ready.committedEntries) await this.#apply(entry)`
  unfoldable pub apply_entries : List LogEntry → Exec NodeError (Node Machine Value) Unit
  apply_entries [] n = (ok tt, n)
  apply_entries (e ∷ es) n = (apply_entry e >> apply_entries es) n

  abbrev pub advanced :
      ℕ
      → Node Machine Value
      → Result Error Unit × RaftCore
      → Result NodeError Unit × Node Machine Value
  advanced id n (ok _, c) = (ok tt, record n { core = c })
  advanced id n (err x, c) = (err (core_failed x), record n { core = c })

  abbrev pub finish : ℕ → Exec NodeError (Node Machine Value) Unit
  finish id n = advanced id n (advance id n.core)

  abbrev pub sends : List RaftMessage → Node Machine Value → Node Machine Value
  sends ms n = record n { sent = n.sent ++ ms }

  abbrev pub persisted :
      RaftReady
      → Result StorageError Unit × Node Machine Value
      → Result NodeError Unit × Node Machine Value
  persisted r (err x, n) = (err (persist_failed x), fail n)
  persisted r (ok _, n) =
      (apply_entries r.committed_entries >> finish r.id) (sends r.outbound_messages n)

  unfoldable pub process_ready : RaftReady → Exec NodeError (Node Machine Value) Unit
  process_ready r n = persisted r (write (batch_of r) n)

  abbrev pub stepped :
      Result Error (Option RaftReady) × RaftCore
      → Node Machine Value
      → Result NodeError Unit × Node Machine Value
  stepped (err x, c) n = (err (core_failed x), record n { core = c })
  stepped (ok none, c) n = (ok tt, record n { core = c })
  stepped (ok (some r), c) n = process_ready r (record n { core = c })

  unfoldable pub process : RaftEvent → Exec NodeError (Node Machine Value) Unit
  process event n = stepped (step event n.core) n

  -- What the table of commands says of a command id and the hash of its bytes.
  pub data Admission : Type 0 where
    answered_before : Value → Admission
    joins conflicts fresh_command : Admission

  abbrev pub admit_pending : Text → Option Text → Admission
  admit_pending h none = fresh_command
  admit_pending h (some g) = if same g h then joins else conflicts

  abbrev pub admit : Text → Option (Completed Value) → Option Text → Admission
  admit h none p = admit_pending h p
  admit h (some c) p = if same c.hash h then answered_before c.result else conflicts

  abbrev pub withdrawn :
      Text
      → Result NodeError Unit × Node Machine Value
      → Result NodeError (Option Value) × Node Machine Value
  withdrawn id (ok _, n) = (ok none, n)
  withdrawn id (err x, n) = (err x, record n { pending = delete n.pending id })

  abbrev pub propose_as :
      Text
      → Bytes
      → Admission
      → Node Machine Value
      → Result NodeError (Option Value) × Node Machine Value
  propose_as id payload (answered_before value) n = (ok (some value), n)
  propose_as id payload joins n = (ok none, n)
  propose_as id payload conflicts n = (err command_id_conflict, n)
  propose_as id payload fresh_command n =
      withdrawn id
        (process (propose id payload) (record n { pending = put n.pending id (digest payload) }))

  -- `propose`, up to the wait for the promise: none where the answer is still to come.
  unfoldable pub propose_command : Text → Bytes → Exec NodeError (Node Machine Value) (Option Value)
  propose_command id payload n =
      if not n.started || not n.healthy
      then (err not_running, n)
      else if not (is_leader n.core.role)
      then (err not_leading, n)
      else propose_as id payload (admit (digest payload) (get n.completed id) (get n.pending id)) n
