-- ===== src/Core/Step.antt =====
-- `constructor`, `step`, `advance`, `#makeReady` and `#assertInvariants`.
use node_raft_rsm.Base.{
  ℕ, ◌+◌, ◌*◌, Bool, true, false, ◌&&◌, ◌||◌, not, Text, Bytes, has, distinct, keep, last?, length,
  ltb, leb, ◌==◌, if◌then◌else◌, Option, none, some, List, [], ◌∷◌, Result, ok, err, ◌>>◌, when,
}
use node_raft_rsm.Types.{
  follower, command, LogEntry, RaftEvent, election_timeout, heartbeat_timeout, message, propose,
  RaftReady, PersistedRaftState, RaftCoreOptions,
}
use node_raft_rsm.Core.State.{
  RaftCore, State, Error, cluster_size, local_not_member, members_not_unique,
  election_timeout_too_short, ready_outstanding, unknown_ready, not_leader, command_id_length,
  payload_too_large, log_not_contiguous, commit_outside_log, applied_exceeds_commit, Action,
  no_effects, boundary, last_log_index,
}
use node_raft_rsm.Core.Leader.{append_local, broadcast_append, is_leader, commit_silently}
use node_raft_rsm.Core.Handlers.{start_election, handle_message}

abbrev pub check_proposal : Text → Bytes → RaftCore → Option Error
check_proposal command_id payload c =
    if not (is_leader c.role)
    then some not_leader
    else if length command_id == 0 || ltb 256 (length command_id)
    then some command_id_length
    else if ltb c.max_message_bytes (length payload)
    then some payload_too_large
    else none

unfoldable pub handle_propose : Text → Bytes → Action Unit
handle_propose command_id payload s = elim (check_proposal command_id payload s.core) [
  | some e ↦ (err e, s)
  | none ↦ (broadcast_append >> commit_silently) (append_local command payload (some command_id) s)
]

unfoldable pub dispatch : RaftEvent → Action Unit
dispatch (election_timeout _) s = when (not (is_leader s.core.role)) start_election s
dispatch heartbeat_timeout s = when (is_leader s.core.role) broadcast_append s
dispatch (message m) s = handle_message m s
dispatch (propose command_id payload) s = handle_propose command_id payload s

unfoldable pub contiguous_from : ℕ → List LogEntry → Bool
contiguous_from expected [] = true
contiguous_from expected (e ∷ es) = e.index == expected && contiguous_from (expected + 1) es

unfoldable pub assert_invariants : RaftCore → Result Error Unit
assert_invariants c =
    if not (contiguous_from (boundary c.snapshot + 1) c.entries)
    then err log_not_contiguous
    else if ltb c.commit_index (boundary c.snapshot) || ltb (last_log_index c) c.commit_index
    then err commit_outside_log
    else if ltb c.commit_index c.applied_index
    then err applied_exceeds_commit
    else ok tt

abbrev pub is_empty {ℓ} : {A : Type ℓ} → List A → Bool
is_empty [] = true
is_empty (_ ∷ _) = false

abbrev pub is_none {ℓ} : {A : Type ℓ} → Option A → Bool
is_none none = true
is_none (some _) = false

abbrev pub committed_entries : RaftCore → List LogEntry
committed_entries c =
    keep (λ e. ltb c.applied_index e.index && leb e.index c.commit_index) c.entries

abbrev pub nothing_to_do : State → Bool
nothing_to_do s =
    is_none s.effects.hard_state
    && (is_none s.effects.truncate_from
        && (is_empty s.effects.entries
            && (is_none s.effects.snapshot
                && (is_empty s.effects.messages && is_empty (committed_entries s.core)))))

abbrev pub ready_of : State → RaftReady
ready_of s = record {
  id = s.core.ready_sequence + 1;
  hard_state = s.effects.hard_state;
  truncate_from = s.effects.truncate_from;
  unstable_entries = s.effects.entries;
  snapshot = s.effects.snapshot;
  outbound_messages = s.effects.messages;
  committed_entries = committed_entries s.core;
}

unfoldable pub make_ready : State → Option RaftReady × RaftCore
make_ready s = if nothing_to_do s then (none, s.core) else (
  some (ready_of s),
  record s.core { ready_sequence = s.core.ready_sequence + 1; outstanding = some (ready_of s) },
)

abbrev pub publish : Result Error Unit → State → Result Error (Option RaftReady) × RaftCore
publish (ok _) s = (ok (make_ready s).0, (make_ready s).1)
publish (err e) s = (err e, s.core)

abbrev pub conclude : Result Error Unit → State → Result Error (Option RaftReady) × RaftCore
conclude (ok _) s = publish (assert_invariants s.core) s
conclude (err e) s = (err e, s.core)

abbrev pub begin : RaftCore → State
begin c = record { core = c; effects = no_effects }

-- A step beside the Ready that is still outstanding.
unfoldable pub step_beside :
    Option RaftReady → RaftEvent → RaftCore → Result Error (Option RaftReady) × RaftCore
step_beside (some _) event c = (err ready_outstanding, c)
step_beside none event c = conclude (dispatch event (begin c)).0 (dispatch event (begin c)).1

unfoldable pub step : RaftEvent → RaftCore → Result Error (Option RaftReady) × RaftCore
unfolding step_beside
step event c = step_beside c.outstanding event c

abbrev pub applied_after : Option LogEntry → ℕ → ℕ
applied_after none applied = applied
applied_after (some e) applied = e.index

abbrev pub acknowledge : RaftReady → RaftCore → RaftCore
acknowledge ready c = record c {
  applied_index = applied_after (last? ready.committed_entries) c.applied_index;
  outstanding = none;
}

-- An advance beside the Ready that is outstanding, if one is.
unfoldable pub advance_beside : Option RaftReady → ℕ → RaftCore → Result Error Unit × RaftCore
advance_beside none ready_id c = (err unknown_ready, c)
advance_beside (some ready) ready_id c =
    if ready.id == ready_id
    then (assert_invariants (acknowledge ready c), acknowledge ready c)
    else (err unknown_ready, c)

unfoldable pub advance : ℕ → RaftCore → Result Error Unit × RaftCore
unfolding advance_beside
advance ready_id c = advance_beside c.outstanding ready_id c

abbrev pub restore : Option PersistedRaftState → RaftCore → RaftCore
restore none c = c
restore (some p) c = record c {
  current_term = p.hard_state.current_term;
  voted_for = p.hard_state.voted_for;
  commit_index = p.hard_state.commit_index;
  applied_index = p.applied_index;
  snapshot = p.snapshot;
  entries = p.entries;
}

abbrev pub fresh : RaftCoreOptions → RaftCore
fresh o = record {
  node_id = o.node_id;
  cluster_id = o.cluster_id;
  members = o.members;
  max_message_bytes = elim o.max_message_bytes [ none ↦ 4 * 1024 * 1024 | some n ↦ n ];
  role = follower;
  leader_id = none;
  current_term = 0;
  voted_for = none;
  commit_index = 0;
  applied_index = 0;
  snapshot = none;
  entries = [];
  votes = [];
  progress = [];
  ready_sequence = 0;
  outstanding = none;
}

abbrev pub checked : RaftCore → Result Error Unit → Result Error RaftCore
checked c (ok _) = ok c
checked c (err e) = err e

unfoldable pub create : RaftCoreOptions → Result Error RaftCore
create o =
    let size = length o.members in
    if not (size == 1 || (size == 3 || size == 5))
    then err cluster_size
    else if not (has o.node_id o.members)
    then err local_not_member
    else if not (distinct o.members)
    then err members_not_unique
    else if leb o.election_timeout o.heartbeat_interval
    then err election_timeout_too_short
    else checked (restore o.persisted (fresh o)) (assert_invariants (restore o.persisted (fresh o)))
