-- ===== src/Tests/Tenure.antt =====
-- The leader of three nodes takes a proposal.
use node_raft_rsm.Base.{◌≡◌, refl, length, [], ◌∷◌}
use node_raft_rsm.Types.{RaftEvent, propose}
use node_raft_rsm.Core.Step.{advance}
use node_raft_rsm.Cluster.{System, after_event, update, event_at, advance_at, Run, here, next}
use node_raft_rsm.Cluster.Tenure.{Reigns, leader_append_only}
use node_raft_rsm.Tests.Elections.{
  program, node_a, trio, silent_trio-Started, led, led-Run, led-role,
}

abbrev proposal : RaftEvent
proposal = propose (b'k' ∷ []) (7 ∷ [])

abbrev saved : System
saved = record led { core = update led.core node_a (advance 2 (led.core node_a)).1 }

abbrev pub proposed : System
proposed = after_event saved node_a proposal

pub proposed-Run : Run trio led proposed
unfolding program
proposed-Run =
    next (next here (advance_at node_a 2 refl)) (event_at node_a proposal refl (λ m e. cc))

leader_append_only_example : Reigns (led.core node_a) (proposed.core node_a)
unfolding program
leader_append_only_example =
    leader_append_only silent_trio-Started led-Run proposed-Run node_a led-role refl

-- Two entries stand in the log then.
two_entries : length (proposed.core node_a).entries ≡ 2
unfolding program
two_entries = refl
