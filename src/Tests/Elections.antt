-- ===== src/Tests/Elections.antt =====
-- Three nodes: one campaigns, a second one votes for it, and it leads.
use node_raft_rsm.Base.{In, ◌≡◌, refl, subst, inl, true, Text-discrete, none, List, [], ◌∷◌}
use native.Mathlib.Decide.{ℕ_discrete}
use node_raft_rsm.Types.{
  NodeId, leader, MessageBase, RaftMessage, request_vote_request, request_vote_response,
  election_timeout, message, RaftCoreOptions,
}
use node_raft_rsm.Core.State.{find_entry, find_term, last_index, has_quorum}
use node_raft_rsm.Core.Leader.{
  append_local, append_request, push_append_for, append_to, broadcast_append, replicated_from,
  committable, quorum_index, advance_leader_commit, initial_progress, become_leader,
}
use node_raft_rsm.Core.Handlers.{
  request_votes, lead_with_quorum, start_election, become_follower, handle_vote_request,
  handle_vote_response, resolve_conflict, extend_log, append_entries, append_all, learn_commit,
  handle_current_append, handle_append_request, after_acknowledge, respond_to_progress,
  handle_append_response, handle_kind, handle_message,
}
use node_raft_rsm.Core.Step.{
  handle_propose, dispatch, contiguous_from, assert_invariants, make_ready, step, advance, fresh,
  create,
}
use node_raft_rsm.Cluster.{
  System, after_event, update, event_at, advance_at, Run, here, next, Started,
}
use node_raft_rsm.Cluster.Election.{election_safety}

unfoldable pub program : Unit {0}
unfolding Text-discrete ℕ_discrete find_entry find_term last_index has_quorum append_local
    append_request push_append_for append_to broadcast_append replicated_from committable
    quorum_index advance_leader_commit initial_progress become_leader request_votes lead_with_quorum
    start_election become_follower handle_vote_request handle_vote_response resolve_conflict
    extend_log append_entries append_all learn_commit handle_current_append handle_append_request
    after_acknowledge respond_to_progress handle_append_response handle_kind handle_message
    handle_propose dispatch contiguous_from assert_invariants make_ready step advance create
program = tt

abbrev pub node_a : NodeId
node_a = b'a' ∷ []

abbrev pub node_b : NodeId
node_b = b'b' ∷ []

abbrev pub node_c : NodeId
node_c = b'c' ∷ []

abbrev pub trio : List NodeId
trio = node_a ∷ node_b ∷ node_c ∷ []

abbrev pub trio_options : NodeId → RaftCoreOptions
trio_options i = record {
  node_id = i;
  cluster_id = b'x' ∷ [];
  members = trio;
  election_timeout = 10;
  heartbeat_interval = 2;
  max_message_bytes = none;
  persisted = none;
}

abbrev pub silent_trio : System
silent_trio = record { core = λ i. fresh (trio_options i); sent = []; ballots = [] }

pub silent_trio-Started : Started trio silent_trio
unfolding program
silent_trio-Started = record {
  silent = refl;
  unvoted = refl;
  options = trio_options;
  own_id = λ i h. refl;
  same_members = λ i h. refl;
  blank = λ i h. refl;
  created = λ i h. rw h;
}

abbrev campaigned : System
campaigned = after_event silent_trio node_a (election_timeout 10)

abbrev settled : System
settled = record campaigned {
  core = update campaigned.core node_a (advance 1 (campaigned.core node_a)).1;
}

abbrev pub from_to : NodeId → NodeId → MessageBase
from_to from to = record {
  protocol_version = 1;
  cluster_id = b'x' ∷ [];
  from = from;
  to = to;
  term = 1;
}

abbrev vote_wanted : RaftMessage
vote_wanted =
    request_vote_request
      (record { base = from_to node_a node_b; last_log_index = 0; last_log_term = 0 })

abbrev vote_given : RaftMessage
vote_given = request_vote_response (record { base = from_to node_b node_a; vote_granted = true })

abbrev answered : System
answered = after_event settled node_b (message vote_wanted)

abbrev pub led : System
led = after_event answered node_a (message vote_given)

pub led-role : (led.core node_a).role ≡ leader
unfolding program
led-role = refl

pub message-injective : (n m : RaftMessage) → message n ≡ message m → n ≡ m
message-injective n m e = cc

pub arrived :
    (xs : List RaftMessage) (n m : RaftMessage) → message n ≡ message m → In n xs → In m xs
arrived xs n m e h = subst (λ x. In x xs) (message-injective n m e) h

pub led-Run : Run trio silent_trio led
unfolding program
led-Run =
    next
      (next
        (next (next here (event_at node_a (election_timeout 10) refl (λ m e. cc)))
          (advance_at node_a 1 refl))
        (event_at node_b (message vote_wanted) refl
          (λ m e. arrived settled.sent vote_wanted m e (inl refl))))
      (event_at node_a (message vote_given) refl
        (λ m e. arrived answered.sent vote_given m e (inl refl)))

election_safety_example : node_a ≡ node_a
unfolding program
election_safety_example =
    election_safety silent_trio-Started led-Run here node_a node_a refl refl led-role led-role refl
