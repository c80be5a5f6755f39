-- ===== src/Types.antt =====
-- packages/raft-core/src/types.ts: identifiers, log entries, messages, events and Ready batches.
-- A bigint is a native number: the core makes no negative one, and none is admitted from outside.
use node_raft_rsm.Base.{ℕ, ◌&&◌, ◌||◌, Bool, Text, Bytes, List, [], ◌∷◌, Option, length, leb, ◌==◌}

abbrev pub protocol_version : ℕ
protocol_version = 1

abbrev pub NodeId : Type 0
NodeId = Text

abbrev pub ClusterId : Type 0
ClusterId = Text

-- `[A-Za-z0-9]`
abbrev pub is_alnum : ℕ → Bool
is_alnum c =
    (leb b'A' c && leb c b'Z') || ((leb b'a' c && leb c b'z') || (leb b'0' c && leb c b'9'))

-- `[A-Za-z0-9._-]`
abbrev pub is_id_char : ℕ → Bool
is_id_char c = is_alnum c || (c == b'.' || (c == b'_' || c == b'-'))

unfoldable pub all_id_chars : List ℕ → Bool
all_id_chars [] = Bool.true
all_id_chars (c ∷ cs) = is_id_char c && all_id_chars cs

-- The pattern that `nodeId` and `clusterId` test.
unfoldable pub valid_id : Text → Bool
valid_id [] = Bool.false
valid_id (c ∷ cs) = is_alnum c && (all_id_chars cs && leb (length cs) 127)

pub data Role : Type 0 where
  follower candidate leader : Role

pub data EntryType : Type 0 where
  command configuration noop : EntryType

pub record HardState : Type 0 where
  pub current_term : ℕ
  pub voted_for : Option NodeId
  pub commit_index : ℕ

pub record LogEntry : Type 0 where
  pub index : ℕ
  pub term : ℕ
  pub type : EntryType
  pub payload : Bytes
  pub command_id : Option Text

pub record Snapshot : Type 0 where
  pub format_version : ℕ
  pub cluster_id : ClusterId
  pub last_included_index : ℕ
  pub last_included_term : ℕ
  pub members : List NodeId
  pub bytes : Bytes
  pub checksum : Text

pub record MessageBase : Type 0 where
  pub protocol_version : ℕ
  pub cluster_id : ClusterId
  pub from : NodeId
  pub to : NodeId
  pub term : ℕ

pub record RequestVoteRequest : Type 0 where
  pub base : MessageBase
  pub last_log_index : ℕ
  pub last_log_term : ℕ

pub record RequestVoteResponse : Type 0 where
  pub base : MessageBase
  pub vote_granted : Bool

pub record AppendEntriesRequest : Type 0 where
  pub base : MessageBase
  pub prev_log_index : ℕ
  pub prev_log_term : ℕ
  pub entries : List LogEntry
  pub leader_commit : ℕ

pub record AppendEntriesResponse : Type 0 where
  pub base : MessageBase
  pub success : Bool
  pub match_index : ℕ
  pub reject_hint : ℕ

pub data RaftMessage : Type 0 where
  request_vote_request : RequestVoteRequest → RaftMessage
  request_vote_response : RequestVoteResponse → RaftMessage
  append_entries_request : AppendEntriesRequest → RaftMessage
  append_entries_response : AppendEntriesResponse → RaftMessage

-- The fields that every message has.
abbrev pub base_of : RaftMessage → MessageBase
base_of (request_vote_request m) = m.base
base_of (request_vote_response m) = m.base
base_of (append_entries_request m) = m.base
base_of (append_entries_response m) = m.base

pub data RaftEvent : Type 0 where
  election_timeout : ℕ → RaftEvent
  heartbeat_timeout : RaftEvent
  message : RaftMessage → RaftEvent
  propose : Text → Bytes → RaftEvent

pub record RaftReady : Type 0 where
  pub id : ℕ
  pub hard_state : Option HardState
  pub truncate_from : Option ℕ
  pub unstable_entries : List LogEntry
  pub snapshot : Option Snapshot
  pub outbound_messages : List RaftMessage
  pub committed_entries : List LogEntry

pub record PersistedRaftState : Type 0 where
  pub hard_state : HardState
  pub entries : List LogEntry
  pub snapshot : Option Snapshot
  pub applied_index : ℕ

pub record RaftCoreOptions : Type 0 where
  pub node_id : NodeId
  pub cluster_id : ClusterId
  pub members : List NodeId
  pub election_timeout : ℕ
  pub heartbeat_interval : ℕ
  pub max_message_bytes : Option ℕ
  pub persisted : Option PersistedRaftState

-- `contracts.ts`: what one atomic write to a storage holds.
pub record PersistBatch : Type 0 where
  pub hard_state : Option HardState
  pub truncate_from : Option ℕ
  pub entries : List LogEntry
  pub snapshot : Option Snapshot
  pub applied_index : Option ℕ
