-- ===== src/Tests/Testing.antt =====
-- The checks of the test cluster, on statuses written out and on the run of three nodes.
use node_raft_rsm.Base.{ℕ, ◌≡◌, ◌↔◌, refl, none, List, [], ◌∷◌, ok, err, arith, Text}
use node_raft_rsm.Types.{NodeId, Role, leader, follower, noop, LogEntry, PersistedRaftState}
use node_raft_rsm.Cluster.Forward.{Later, never_back}
use node_raft_rsm.Testing.{
  RaftStatus, Watch, check_live, two_leaders, check_durable, not_contiguous,
}
use node_raft_rsm.Core.State.{boundary}
use node_raft_rsm.Tests.Machines.{two_entries}
use node_raft_rsm.Testing.Durability.{Consistent, check_durable-Consistent}
use node_raft_rsm.Testing.Verdicts.{InOrder, check_live-InOrder}
use node_raft_rsm.Testing.Reached.{statuses, fresh_round, check_live-passes}
use node_raft_rsm.Tests.Elections.{program, node_a, node_b, silent_trio-Started, led, led-Run}
use node_raft_rsm.Tests.Tenure.{proposed, proposed-Run}

abbrev seen_of : Role → ℕ → NodeId → RaftStatus
seen_of role term i = record {
  node_id = i;
  cluster_id = b'x' ∷ [];
  role = role;
  current_term = term;
  leader_id = none;
  last_log_index = 4;
  commit_index = 3;
  applied_index = 2;
  snapshot_index = 0;
}

abbrev unwatched : Watch
unwatched = record { last_terms = []; last_commits = []; last_applied = [] }

abbrev one_leader : List (NodeId × RaftStatus)
one_leader = (node_a, seen_of leader 2 node_a) ∷ (node_b, seen_of follower 2 node_b) ∷ []

abbrev rival_leaders : List (NodeId × RaftStatus)
rival_leaders = (node_a, seen_of leader 2 node_a) ∷ (node_b, seen_of leader 2 node_b) ∷ []

found_rivals : (check_live rival_leaders (fresh_round unwatched)).0 ≡ err two_leaders
unfolding program
found_rivals = refl

check_live-InOrder_example :
    ((check_live one_leader (fresh_round unwatched)).0 ≡ ok tt)
    ↔ InOrder (fresh_round unwatched) one_leader
unfolding program
check_live-InOrder_example = check_live-InOrder one_leader (fresh_round unwatched) refl

never_back_example : Later (led.core node_a) (proposed.core node_a)
unfolding program
never_back_example = never_back silent_trio-Started led-Run proposed-Run node_a refl

-- What was seen of the nodes that run when the first of them was elected.
abbrev watched : Watch
watched = record {
  last_terms = (node_a, 1) ∷ (node_b, 1) ∷ [];
  last_commits = [];
  last_applied = [];
}

check_live-passes_example :
    (check_live (statuses proposed (node_a ∷ node_b ∷ [])) (fresh_round watched)).0 ≡ ok tt
unfolding program
check_live-passes_example =
    check_live-passes silent_trio-Started led-Run proposed-Run (node_a ∷ node_b ∷ [])
      (refl, (refl, tt)) refl watched
      (
        record { term = omega arith; commit = omega arith; applied = omega arith },
        (record { term = omega arith; commit = omega arith; applied = omega arith }, tt),
      )

abbrev durable_at : ℕ → PersistedRaftState
durable_at commit = record {
  hard_state = record { current_term = 1; voted_for = none; commit_index = commit };
  entries = two_entries;
  snapshot = none;
  applied_index = 0;
}

abbrev payload_of : LogEntry → Text
payload_of e = e.payload

check_durable-Consistent_example : Consistent payload_of (durable_at 2 ∷ durable_at 1 ∷ [])
unfolding boundary program
check_durable-Consistent_example =
    check_durable-Consistent payload_of (durable_at 2 ∷ durable_at 1 ∷ [])
      ((1, []) ∷ (2, node_b) ∷ []) refl

found_gap :
    check_durable payload_of
      (record (durable_at 1) {
        entries = record { index = 2; term = 1; type = noop; payload = []; command_id = none } ∷ [];
      }
        ∷ [])
      (ok [])
    ≡ err not_contiguous
unfolding boundary program
found_gap = refl
