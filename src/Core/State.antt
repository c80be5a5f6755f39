-- ===== src/Core/State.antt =====
-- The private fields of `RaftCore`, the effects of a step, and the readers of both.
use node_raft_rsm.Base.{
  ℕ, ◌+◌, ◌/◌, Bool, same, keep, first, last?, length, leb, ◌==◌, not, if◌then◌else◌, Option, none,
  some, List, [], ◌∷◌, ◌++◌, Exec,
}
use node_raft_rsm.Types.{
  NodeId, ClusterId, Role, HardState, LogEntry, Snapshot, RaftMessage, RaftReady,
}

pub record PeerProgress : Type 0 where
  pub next_index : ℕ
  pub match_index : ℕ

pub record Effects : Type 0 where
  pub hard_state : Option HardState
  pub truncate_from : Option ℕ
  pub entries : List LogEntry
  pub snapshot : Option Snapshot
  pub messages : List RaftMessage

pub record RaftCore : Type 0 where
  pub node_id : NodeId
  pub cluster_id : ClusterId
  pub members : List NodeId
  pub max_message_bytes : ℕ
  pub role : Role
  pub leader_id : Option NodeId
  pub current_term : ℕ
  pub voted_for : Option NodeId
  pub commit_index : ℕ
  pub applied_index : ℕ
  pub snapshot : Option Snapshot
  pub entries : List LogEntry
  pub votes : List NodeId
  pub progress : List (NodeId × PeerProgress)
  pub ready_sequence : ℕ
  pub outstanding : Option RaftReady

-- What a step works on: the object, and the local variable `effects`.
pub record State : Type 0 where
  pub core : RaftCore
  pub effects : Effects

pub data Error : Type 0 where
  cluster_size local_not_member members_not_unique election_timeout_too_short : Error
  ready_outstanding unknown_ready not_leader command_id_length payload_too_large : Error
  unsupported_version cross_cluster peer_identity : Error
  overwrite_committed non_contiguous missing_progress : Error
  log_not_contiguous commit_outside_log applied_exceeds_commit : Error

abbrev pub Action : Type 0 → Type 0
Action A = Exec Error State A

abbrev pub no_effects : Effects
no_effects = record {
  hard_state = none;
  truncate_from = none;
  entries = [];
  snapshot = none;
  messages = [];
}

-- `effects.messages.push(m)`
abbrev pub send : RaftMessage → State → State
send m s = record s { effects = record s.effects { messages = s.effects.messages ++ m ∷ [] } }

unfoldable pub boundary : Option Snapshot → ℕ
boundary none = 0
boundary (some s) = s.last_included_index

unfoldable pub last_index : Option LogEntry → Option Snapshot → ℕ
unfolding boundary
last_index none s = boundary s
last_index (some e) s = e.index

unfoldable pub find_entry : List LogEntry → ℕ → Option LogEntry
find_entry entries index = first (λ e. e.index == index) entries

abbrev pub entry_at : RaftCore → ℕ → Option LogEntry
entry_at c index = find_entry c.entries index

abbrev pub entry_term : Option LogEntry → Option ℕ
entry_term none = none
entry_term (some e) = some e.term

-- The snapshot's term where it ends at the index, and otherwise that of the entry.
unfoldable pub boundary_term : Option Snapshot → ℕ → Option ℕ → Option ℕ
boundary_term none index t = t
boundary_term (some s) index t =
    if s.last_included_index == index then some s.last_included_term else t

unfoldable pub find_term : Option Snapshot → List LogEntry → ℕ → Option ℕ
unfolding boundary_term
find_term snapshot entries index =
    if index == 0
    then some 0
    else boundary_term snapshot index (entry_term (find_entry entries index))

abbrev pub term_at : RaftCore → ℕ → Option ℕ
term_at c index = find_term c.snapshot c.entries index

abbrev pub last_log_index : RaftCore → ℕ
last_log_index c = last_index (last? c.entries) c.snapshot

-- `this.#termAt(index) ?? 0n`
abbrev pub or_zero : Option ℕ → ℕ
or_zero none = 0
or_zero (some t) = t

abbrev pub hard_state : RaftCore → HardState
hard_state c = record {
  current_term = c.current_term;
  voted_for = c.voted_for;
  commit_index = c.commit_index;
}

-- `effects.hardState = this.#hardState()`
abbrev pub note_hard_state : State → State
note_hard_state s = record s {
  effects = record s.effects { hard_state = some (hard_state s.core) };
}

abbrev pub peers : RaftCore → List NodeId
peers c = keep (λ m. not (same m c.node_id)) c.members

unfoldable pub has_quorum : RaftCore → ℕ → Bool
has_quorum c count = leb (length c.members / 2 + 1) count
