-- ===== src/Tests/Steps.antt =====
-- A follower that receives its first entry, which is committed, and its storage.
use node_raft_rsm.Base.{◌≡◌, refl, subst, none, some, [], ◌∷◌, Option, ok, err, arith, ◌+◌, length}
use node_raft_rsm.Types.{LogEntry, noop, RaftMessage, append_entries_request, message, RaftReady}
use node_raft_rsm.Core.State.{RaftCore, non_contiguous}
use node_raft_rsm.Core.Step.{step, advance, fresh, create, restore, committed_entries}
use node_raft_rsm.Core.Log.{Contiguous}
use node_raft_rsm.Core.Totality.{Sound, Harmless}
use node_raft_rsm.Core.Ready.{
  Pending, Stepped, step-Stepped, committed_entries-Contiguous, advance-applies,
}
use node_raft_rsm.Core.Accounts.{Ordered}
use node_raft_rsm.Core.Deltas.{Told, step-Told}
use node_raft_rsm.Storage.Refinement.{Mirrored, step-persist, Restarted, restart}
use node_raft_rsm.Tests.Elections.{
  program, node_a, node_b, trio_options, from_to, message-injective,
}

abbrev first_entry : LogEntry
first_entry = record { index = 1; term = 1; type = noop; payload = []; command_id = none }

abbrev pub append_first : RaftMessage
append_first = append_entries_request (record {
  base = from_to node_a node_b;
  prev_log_index = 0;
  prev_log_term = 0;
  entries = first_entry ∷ [];
  leader_commit = 1;
})

abbrev pub blank_node : RaftCore
blank_node = fresh (trio_options node_b)

pub blank_node-Sound : Sound blank_node
unfolding program
blank_node-Sound = record {
  log = record { contiguous = tt; floor = omega arith; ceiling = omega arith; done = omega arith };
  progress = record { complete = λ h p member. cc; positive = λ p q h. cc };
}

blank_node-Pending : Pending blank_node
blank_node-Pending r h = cc

step-Stepped_example :
    Harmless (step (message append_first) blank_node).0
    × Stepped blank_node (step (message append_first) blank_node).1
step-Stepped_example =
    step-Stepped (message append_first) blank_node blank_node-Sound blank_node-Pending

pub append_first-Ordered : (m : RaftMessage) → message append_first ≡ message m → Ordered m
append_first-Ordered m e = subst Ordered (message-injective append_first m e) tt

step-Told_example : Told blank_node (step (message append_first) blank_node)
step-Told_example =
    step-Told (message append_first) blank_node (λ m e a. append_first-Ordered m e) blank_node-Sound

step-persist_example : Mirrored blank_node [] (step (message append_first) blank_node)
step-persist_example =
    step-persist (message append_first) blank_node [] (λ m e a. append_first-Ordered m e)
      blank_node-Sound blank_node-Pending

-- Entries 1 and 5 stop the step at the gap; entry 1 and the term stay, and no Ready hands them over.
abbrev append_gap : RaftMessage
append_gap = append_entries_request (record {
  base = from_to node_a node_b;
  prev_log_index = 0;
  prev_log_term = 0;
  entries = first_entry ∷ record first_entry { index = 5 } ∷ [];
  leader_commit = 1;
})

gap_interrupts :
    ((step (message append_gap) blank_node).0 ≡ err non_contiguous)
    × ((step (message append_gap) blank_node).1.entries ≡ first_entry ∷ [])
    × ((step (message append_gap) blank_node).1.current_term ≡ 1)
    × ((step (message append_gap) blank_node).1.outstanding ≡ none)
unfolding program
gap_interrupts = (refl, refl, refl, refl)

abbrev received : RaftCore
received = (step (message append_first) blank_node).1

received-Sound : Sound received
received-Sound =
    (step-Stepped (message append_first) blank_node blank_node-Sound blank_node-Pending).1.sound

received-Pending : Pending received
received-Pending =
    (step-Stepped (message append_first) blank_node blank_node-Sound blank_node-Pending).1.pending

received-log : (received.entries ≡ first_entry ∷ []) × (received.commit_index ≡ 1)
unfolding program
received-log = (refl, refl)

committed_entries-Contiguous_example :
    Contiguous 1 (committed_entries received) × (0 + length (committed_entries received) ≡ 1)
unfolding program
committed_entries-Contiguous_example =
    committed_entries-Contiguous received received-Sound (omega arith)

abbrev handed : Option RaftReady → RaftReady
handed (some r) = r
handed none = record {
  id = 0;
  hard_state = none;
  truncate_from = none;
  unstable_entries = [];
  snapshot = none;
  outbound_messages = [];
  committed_entries = [];
}

accepted : create (trio_options node_b) ≡ ok (restore none (fresh (trio_options node_b)))
unfolding program
accepted = refl

advance-applies_example :
    ((advance (handed received.outstanding).id received).0 ≡ ok tt)
    × Sound (advance (handed received.outstanding).id received).1
    × ((advance (handed received.outstanding).id received).1.applied_index ≡ 1)
    × ((advance (handed received.outstanding).id received).1.outstanding ≡ none)
unfolding program
advance-applies_example =
    advance-applies received (handed received.outstanding) received-Sound received-Pending
      (omega arith) refl

restart_example : Restarted (trio_options node_b) received []
restart_example = restart (trio_options node_b) received [] accepted received-Sound
