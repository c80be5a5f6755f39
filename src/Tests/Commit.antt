-- ===== src/Tests/Commit.antt =====
-- A leader of three nodes, one of which has acknowledged its second entry.
use node_raft_rsm.Base.{◌≡◌, ◌⊎◌, refl, [], ◌∷◌, arith}
use node_raft_rsm.Types.{leader}
use node_raft_rsm.Core.State.{State, no_effects, last_index}
use node_raft_rsm.Core.Leader.{advance_leader_commit}
use node_raft_rsm.Core.Commit.{Stays, Moves, advance_leader_commit-greatest}
use node_raft_rsm.Core.Step.{fresh}
use node_raft_rsm.Tests.Elections.{program, node_a, node_b, node_c, trio_options}
use node_raft_rsm.Tests.Machines.{two_entries}

abbrev acknowledged_by_one : State
acknowledged_by_one = record {
  core = record (fresh (trio_options node_a)) {
    role = leader;
    current_term = 1;
    entries = two_entries;
    progress =
        (node_b, record { next_index = 3; match_index = 2 })
        ∷ (node_c, record { next_index = 1; match_index = 0 })
        ∷ [];
  };
  effects = no_effects;
}

advance_leader_commit-greatest_example :
    Stays acknowledged_by_one (advance_leader_commit acknowledged_by_one)
    ⊎ Moves acknowledged_by_one (advance_leader_commit acknowledged_by_one)
unfolding last_index
advance_leader_commit-greatest_example =
    advance_leader_commit-greatest acknowledged_by_one refl (omega arith)

moves_to_two : (advance_leader_commit acknowledged_by_one).1.core.commit_index ≡ 2
unfolding program
moves_to_two = refl
