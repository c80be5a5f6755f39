-- ===== src/Core/Handlers.antt =====
-- Elections and the handlers of the four messages.
use node_raft_rsm.Base.{
  ℕ, ◌+◌, ◌-◌, Bool, true, false, ◌&&◌, ◌||◌, not, same, has, put, get, keep, last?, length, ltb,
  leb, ◌==◌, if◌then◌else◌, Option, none, some, List, [], ◌∷◌, ◌++◌, Exec, ok, err, ◌>>◌, modify,
  when,
}
use node_raft_rsm.Types.{
  protocol_version, NodeId, Role, follower, candidate, LogEntry, RequestVoteRequest,
  RequestVoteResponse, AppendEntriesRequest, AppendEntriesResponse, RaftMessage,
  request_vote_request, request_vote_response, append_entries_request, append_entries_response,
  base_of,
}
use node_raft_rsm.Core.State.{
  PeerProgress, RaftCore, State, Error, overwrite_committed, non_contiguous, unsupported_version,
  cross_cluster, peer_identity, Action, send, entry_at, term_at, last_log_index, or_zero,
  note_hard_state, peers, has_quorum,
}
use node_raft_rsm.Core.Leader.{
  envelope, push_append_for, broadcast_append, is_term, is_leader, advance_leader_commit,
  become_leader,
}

abbrev pub stand : State → State
stand s = note_hard_state (record s {
  core = record s.core {
    role = candidate;
    leader_id = none;
    current_term = s.core.current_term + 1;
    voted_for = some s.core.node_id;
    votes = s.core.node_id ∷ [];
  };
})

abbrev pub vote_request : RaftCore → NodeId → RaftMessage
vote_request c peer = request_vote_request (record {
  base = envelope c peer;
  last_log_index = last_log_index c;
  last_log_term = or_zero (term_at c (last_log_index c));
})

unfoldable pub request_votes : List NodeId → State → State
request_votes [] s = s
request_votes (peer ∷ rest) s = request_votes rest (send (vote_request s.core peer) s)

-- `if (this.#hasQuorum(this.#votes.size)) this.#becomeLeader(effects)`
unfoldable pub lead_with_quorum : Action Unit
lead_with_quorum s = when (has_quorum s.core (length s.core.votes)) become_leader s

unfoldable pub start_election : Action Unit
start_election s = lead_with_quorum (request_votes (peers s.core) (stand s))

abbrev pub adopt_term : ℕ → State → State
adopt_term term s =
    if ltb s.core.current_term term
    then note_hard_state
        (record s { core = record s.core { current_term = term; voted_for = none } })
    else s

unfoldable pub become_follower : ℕ → Option NodeId → State → State
become_follower term leader_id s =
    let t = adopt_term term s in
    record t {
      core = record t.core { role = follower; leader_id = leader_id; votes = []; progress = [] };
    }

abbrev pub may_vote_for : Option NodeId → NodeId → Bool
may_vote_for none from = true
may_vote_for (some v) from = same v from

abbrev pub up_to_date : RequestVoteRequest → RaftCore → Bool
up_to_date m c =
    let last_term = or_zero (term_at c (last_log_index c)) in
    ltb last_term m.last_log_term
    || (m.last_log_term == last_term && leb (last_log_index c) m.last_log_index)

abbrev pub grants : RequestVoteRequest → RaftCore → Bool
grants m c =
    m.base.term == c.current_term && (may_vote_for c.voted_for m.base.from && up_to_date m c)

abbrev pub cast_vote : NodeId → State → State
cast_vote from s =
    note_hard_state (record s {
      core = record s.core { role = follower; leader_id = none; voted_for = some from };
    })

abbrev pub vote_response : RaftCore → NodeId → Bool → RaftMessage
vote_response c to granted =
    request_vote_response (record { base = envelope c to; vote_granted = granted })

unfoldable pub handle_vote_request : RequestVoteRequest → State → State
handle_vote_request m s =
    let voted = cast_vote m.base.from s in
    if grants m s.core
    then send (vote_response voted.core m.base.from true) voted
    else send (vote_response s.core m.base.from false) s

-- `this.#votes.add(from)`
abbrev pub add_vote : NodeId → State → State
add_vote from s =
    if has from s.core.votes
    then s
    else record s { core = record s.core { votes = s.core.votes ++ from ∷ [] } }

abbrev pub is_candidate : Role → Bool
is_candidate candidate = true
is_candidate _ = false

unfoldable pub handle_vote_response : RequestVoteResponse → Action Unit
handle_vote_response m s =
    if is_candidate s.core.role && (m.base.term == s.core.current_term && m.vote_granted)
    then lead_with_quorum (add_vote m.base.from s)
    else (ok tt, s)

abbrev pub append_response : RaftCore → NodeId → Bool → ℕ → ℕ → RaftMessage
append_response c to success match_index reject_hint = append_entries_response (record {
  base = envelope c to;
  success = success;
  match_index = match_index;
  reject_hint = reject_hint;
})

-- The loop of `#handleAppendRequest`: the object and the loop's two variables.
pub record Appending : Type 0 where
  pub core : RaftCore
  pub truncate_from : Option ℕ
  pub appended : List LogEntry

abbrev pub drop_from : ℕ → RaftCore → RaftCore
drop_from index c = record c { entries = keep (λ e. ltb e.index index) c.entries }

unfoldable pub resolve_conflict : LogEntry → Exec Error Appending Unit
resolve_conflict incoming s = elim (entry_at s.core incoming.index) [
  | none ↦ (ok tt, s)
  | some existing ↦
      if existing.term == incoming.term
      then (ok tt, s)
      else if leb incoming.index s.core.commit_index
      then (err overwrite_committed, s)
      else (
        ok tt,
        record s { core = drop_from incoming.index s.core; truncate_from = some incoming.index },
      )
]

abbrev pub push_entry : LogEntry → Appending → Appending
push_entry e s = record s {
  core = record s.core { entries = s.core.entries ++ e ∷ [] };
  appended = s.appended ++ e ∷ [];
}

unfoldable pub extend_log : LogEntry → Exec Error Appending Unit
extend_log incoming s = elim (entry_at s.core incoming.index) [
  | some existing ↦ (ok tt, s)
  | none ↦
      if incoming.index == last_log_index s.core + 1
      then (ok tt, push_entry incoming s)
      else (err non_contiguous, s)
]

unfoldable pub append_entries : List LogEntry → Exec Error Appending Unit
append_entries [] s = (ok tt, s)
append_entries (incoming ∷ rest) s =
    (do resolve_conflict incoming; extend_log incoming; append_entries rest) s

-- Runs the loop on the object; the loop's variables go to the effects when it ends.
unfoldable pub append_all : List LogEntry → Action Unit
append_all entries s =
    let r =
      append_entries entries (record { core = s.core; truncate_from = none; appended = [] }) in
    elim r.0 [
      | err e ↦ (err e, record s { core = r.1.core })
      | ok _ ↦ (
        ok tt,
        record {
          core = r.1.core;
          effects = record s.effects {
            truncate_from = elim r.1.truncate_from [
              | none ↦ s.effects.truncate_from
              | some i ↦ some i
            ];
            entries = s.effects.entries ++ r.1.appended;
          };
        },
      )
    ]

abbrev pub min_bigint : ℕ → ℕ → ℕ
min_bigint left right = if ltb left right then left else right

abbrev pub max_bigint : ℕ → ℕ → ℕ
max_bigint left right = if ltb right left then left else right

abbrev pub learned_commit : ℕ → RaftCore → ℕ
learned_commit leader_commit c =
    if ltb c.commit_index leader_commit
    then min_bigint leader_commit (last_log_index c)
    else c.commit_index

unfoldable pub learn_commit : ℕ → State → State
learn_commit leader_commit s =
    let t = record s {
      core = record s.core { commit_index = learned_commit leader_commit s.core };
    } in
    if learned_commit leader_commit s.core == s.core.commit_index then t else note_hard_state t

-- `message.entries.at(-1)?.index ?? message.prevLogIndex`
abbrev pub match_of : Option LogEntry → ℕ → ℕ
match_of none prev = prev
match_of (some e) prev = e.index

abbrev pub accept_append : AppendEntriesRequest → State → State
accept_append m s =
    let t = learn_commit m.leader_commit s in
    let matched = match_of (last? m.entries) m.prev_log_index in
    send (append_response t.core m.base.from true matched (matched + 1)) t

abbrev pub reject_append : AppendEntriesRequest → State → State
reject_append m s =
    let last = last_log_index s.core in
    let hint = if ltb last m.prev_log_index then last + 1 else m.prev_log_index in
    send (append_response s.core m.base.from false 0 hint) s

unfoldable pub handle_current_append : AppendEntriesRequest → Action Unit
handle_current_append m s =
    if is_term (term_at s.core m.prev_log_index) m.prev_log_term
    then (do append_all m.entries; modify (accept_append m)) s
    else (ok tt, reject_append m s)

unfoldable pub handle_append_request : AppendEntriesRequest → Action Unit
handle_append_request m s =
    if ltb m.base.term s.core.current_term
    then (ok tt, send (append_response s.core m.base.from false 0 (last_log_index s.core + 1)) s)
    else handle_current_append m (become_follower m.base.term (some m.base.from) s)

abbrev pub set_progress : NodeId → PeerProgress → State → State
set_progress peer p s = record s { core = record s.core { progress = put s.core.progress peer p } }

-- `progress` is the object in the map, so that a write to it shows in the map at once.
abbrev pub acknowledged : AppendEntriesResponse → PeerProgress → PeerProgress
acknowledged m p =
    let matched = if ltb p.match_index m.match_index then m.match_index else p.match_index in
    record { next_index = matched + 1; match_index = matched }

abbrev pub backed_up : AppendEntriesResponse → PeerProgress → PeerProgress
backed_up m p = record p { next_index = max_bigint 1 (min_bigint (p.next_index - 1) m.reject_hint) }

-- After the progress is updated: commit, tell all if that moved, and go on with this peer.
unfoldable pub after_acknowledge : NodeId → ℕ → Action Unit
after_acknowledge peer next s =
    let (advanced, t) = advance_leader_commit s in
    (do
      when advanced broadcast_append
      λ u. when (leb next (last_log_index u.core)) (push_append_for peer) u)
      t

unfoldable pub respond_to_progress : AppendEntriesResponse → Option PeerProgress → Action Unit
respond_to_progress m none s = (ok tt, s)
respond_to_progress m (some p) s =
    if m.success
    then after_acknowledge m.base.from (acknowledged m p).next_index
        (set_progress m.base.from (acknowledged m p) s)
    else push_append_for m.base.from (set_progress m.base.from (backed_up m p) s)

unfoldable pub handle_append_response : AppendEntriesResponse → Action Unit
handle_append_response m s =
    if ltb m.base.term s.core.current_term || not (is_leader s.core.role)
    then (ok tt, s)
    else respond_to_progress m (get s.core.progress m.base.from) s

unfoldable pub handle_kind : RaftMessage → Action Unit
handle_kind (request_vote_request m) s = (ok tt, handle_vote_request m s)
handle_kind (request_vote_response m) s = handle_vote_response m s
handle_kind (append_entries_request m) s = handle_append_request m s
handle_kind (append_entries_response m) s = handle_append_response m s

-- `if (message.term > this.#currentTerm) this.#becomeFollower(message.term, null, effects)`
abbrev pub observe_term : ℕ → State → State
observe_term term s = if ltb s.core.current_term term then become_follower term none s else s

-- The tests that `#handleMessage` makes of the envelope.
abbrev pub addressed : RaftMessage → RaftCore → Bool
addressed m c = same (base_of m).to c.node_id && has (base_of m).from c.members

abbrev pub check_envelope : RaftMessage → RaftCore → Option Error
check_envelope m c =
    if not ((base_of m).protocol_version == protocol_version)
    then some unsupported_version
    else if not (same (base_of m).cluster_id c.cluster_id)
    then some cross_cluster
    else if not (addressed m c)
    then some peer_identity
    else none

unfoldable pub handle_message : RaftMessage → Action Unit
handle_message m s = elim (check_envelope m s.core) [
  | some e ↦ (err e, s)
  | none ↦ handle_kind m (observe_term (base_of m).term s)
]
