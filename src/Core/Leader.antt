-- ===== src/Core/Leader.antt =====
-- What a leader does: local appends, replication messages and commitment.
use node_raft_rsm.Base.{
  ℕ, zero, suc, ◌+◌, ◌-◌, Bool, true, false, Bytes, Text, get, keep, leb, ◌==◌, if◌then◌else◌,
  Option, none, some, List, [], ◌∷◌, ◌++◌, ok, err, ◌>>◌, modify,
}
use node_raft_rsm.Types.{
  protocol_version, NodeId, Role, leader, EntryType, noop, LogEntry, MessageBase,
  AppendEntriesRequest, append_entries_request,
}
use node_raft_rsm.Core.State.{
  PeerProgress, RaftCore, State, missing_progress, Action, send, term_at, last_log_index, or_zero,
  note_hard_state, peers, has_quorum,
}

-- The envelope of every message that this node sends.
abbrev pub envelope : RaftCore → NodeId → MessageBase
envelope c to = record {
  protocol_version = protocol_version;
  cluster_id = c.cluster_id;
  from = c.node_id;
  to = to;
  term = c.current_term;
}

abbrev pub local_entry : EntryType → Bytes → Option Text → RaftCore → LogEntry
local_entry type payload command_id c = record {
  index = last_log_index c + 1;
  term = c.current_term;
  type = type;
  payload = payload;
  command_id = command_id;
}

unfoldable pub append_local : EntryType → Bytes → Option Text → State → State
append_local type payload command_id s =
    let full = local_entry type payload command_id s.core in
    record {
      core = record s.core { entries = s.core.entries ++ full ∷ [] };
      effects = record s.effects { entries = s.effects.entries ++ full ∷ [] };
    }

-- The message for a peer whose progress is known.
unfoldable pub append_request : RaftCore → NodeId → PeerProgress → AppendEntriesRequest
append_request c peer progress = record {
  base = envelope c peer;
  prev_log_index = progress.next_index - 1;
  prev_log_term = or_zero (term_at c (progress.next_index - 1));
  entries = keep (λ e. leb progress.next_index e.index) c.entries;
  leader_commit = c.commit_index;
}

-- `effects.messages.push(this.#appendFor(peer))`
unfoldable pub push_append_for : NodeId → Action Unit
push_append_for peer s = elim (get s.core.progress peer) [
  | none ↦ (err missing_progress, s)
  | some progress ↦ (ok tt, send (append_entries_request (append_request s.core peer progress)) s)
]

unfoldable pub append_to : List NodeId → Action Unit
append_to [] s = (ok tt, s)
append_to (peer ∷ rest) s = (do push_append_for peer; append_to rest) s

unfoldable pub broadcast_append : Action Unit
broadcast_append s = append_to (peers s.core) s

-- `let replicated = 1; for (…) if (progress.matchIndex >= index) replicated += 1`
unfoldable pub replicated_from : ℕ → List (NodeId × PeerProgress) → ℕ → ℕ
replicated_from n [] index = n
replicated_from n ((_, p) ∷ rest) index =
    replicated_from (if leb index p.match_index then n + 1 else n) rest index

abbrev pub is_term : Option ℕ → ℕ → Bool
is_term none t = false
is_term (some u) t = u == t

unfoldable pub committable : RaftCore → ℕ → Bool
committable c index =
    if is_term (term_at c index) c.current_term
    then has_quorum c (replicated_from 1 c.progress index)
    else false

-- The loop of `#advanceLeaderCommit`, with `k` rounds left, at the index `commitIndex + k`.
unfoldable pub quorum_index : RaftCore → ℕ → Option ℕ
quorum_index c zero = none
quorum_index c (suc k) =
    let rest = quorum_index c k in
    if committable c (c.commit_index + suc k) then some (c.commit_index + suc k) else rest

abbrev pub set_commit : Option ℕ → State → Bool × State
set_commit none s = (false, s)
set_commit (some index) s =
    (true, note_hard_state (record s { core = record s.core { commit_index = index } }))

abbrev pub is_leader : Role → Bool
is_leader leader = true
is_leader _ = false

unfoldable pub advance_leader_commit : State → Bool × State
unfolding quorum_index
advance_leader_commit s =
    if is_leader s.core.role
    then set_commit (quorum_index s.core (last_log_index s.core - s.core.commit_index)) s
    else (false, s)

unfoldable pub initial_progress : ℕ → List NodeId → List (NodeId × PeerProgress)
initial_progress next [] = []
initial_progress next (peer ∷ rest) =
    (peer, record { next_index = next; match_index = 0 }) ∷ initial_progress next rest

abbrev pub take_office : State → State
take_office s = record s {
  core = record s.core {
    role = leader;
    leader_id = some s.core.node_id;
    progress = initial_progress (last_log_index s.core + 1) (peers s.core);
  };
}

abbrev pub commit_silently : Action Unit
commit_silently = modify (λ s. (advance_leader_commit s).1)

unfoldable pub become_leader : Action Unit
become_leader = do
  modify take_office
  modify (append_local noop [] none)
  broadcast_append
  commit_silently
