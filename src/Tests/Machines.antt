-- ===== src/Tests/Machines.antt =====
-- A node that applies two entries, and a key-value machine that compares and sets.
use node_raft_rsm.Base.{
  ◌≡◌, refl, none, some, List, [], ◌∷◌, ◌++◌, Text, Bytes, Option, Bool, arith, get,
}
use node_raft_rsm.Types.{LogEntry, command, noop, message}
use node_raft_rsm.Core.State.{RaftCore}
use node_raft_rsm.Core.Step.{fresh, step}
use node_raft_rsm.Node.{Node, apply_entries, process}
use node_raft_rsm.Node.Applying.{held, Applied, apply_entries-Applied}
use node_raft_rsm.Node.Processing.{Synced, Processed, process-Processed}
use node_raft_rsm.Storage.Refinement.{image}
use node_raft_rsm.Tests.Steps.{append_first, blank_node, blank_node-Sound, append_first-Ordered}
use node_raft_rsm.Kv.{compare_and_set, apply_kv, delete_shown, apply_visualizer}
use node_raft_rsm.Kv.Lookup.{updated, Proper, apply_map, apply_kv-map, apply_visualizer-map}
use node_raft_rsm.Tests.Elections.{program, node_a, node_b, trio_options}

abbrev pub decode_all : Bytes → Option Bytes
decode_all b = some b

abbrev pub append_all_bytes : Bytes → LogEntry → List Bytes → Option (Bytes × List Bytes)
append_all_bytes b e m = some (b, m ++ b ∷ [])

abbrev pub keep_bytes : Bytes → Text
keep_bytes b = b

abbrev pub two_committed : RaftCore
two_committed = record (fresh (trio_options node_a)) { commit_index = 2 }

abbrev pub two_entries : List LogEntry
two_entries =
    record { index = 1; term = 1; type = noop; payload = []; command_id = none }
    ∷ record { index = 2; term = 1; type = command; payload = node_b; command_id = some node_a }
    ∷ []

abbrev pub small_node : Node (List Bytes) Bytes
small_node = record {
  core = two_committed;
  storage = held two_committed 0 [];
  machine = [];
  pending = (node_a, node_b) ∷ [];
  completed = [];
  retention = 1;
  started = Bool.true;
  healthy = Bool.true;
  sent = [];
  answers = [];
}

apply_entries-Applied_example :
    Applied decode_all append_all_bytes keep_bytes small_node two_committed 2
      (node_b ∷ [])
      (apply_entries decode_all append_all_bytes keep_bytes two_entries small_node)
apply_entries-Applied_example =
    apply_entries-Applied decode_all append_all_bytes keep_bytes two_entries small_node
      two_committed 0 [] (node_b ∷ []) refl (refl, (refl, tt)) (omega arith) refl

abbrev one_value : List (Text × Text)
one_value = (node_a, node_b) ∷ []

one_value-Proper : Proper one_value
one_value-Proper = refl

apply_kv-map_example :
    ((apply_kv (compare_and_set node_a (some node_b) node_a) one_value).0
      ≡ (apply_map (compare_and_set node_a (some node_b) node_a) (get one_value)).0)
    × Proper (apply_kv (compare_and_set node_a (some node_b) node_a) one_value).1
    × ((j : Text)
        → get (apply_kv (compare_and_set node_a (some node_b) node_a) one_value).1 j
          ≡ (apply_map (compare_and_set node_a (some node_b) node_a) (get one_value)).1 j)
apply_kv-map_example =
    apply_kv-map (compare_and_set node_a (some node_b) node_a) one_value one_value-Proper

apply_visualizer-map_example :
    ((apply_visualizer (delete_shown node_a) one_value).0.previous_value ≡ get one_value node_a)
    × ((apply_visualizer (delete_shown node_a) one_value).0.value ≡ none)
    × Proper (apply_visualizer (delete_shown node_a) one_value).1
    × ((j : Text)
        → get (apply_visualizer (delete_shown node_a) one_value).1 j
          ≡ updated (get one_value) node_a none j)
apply_visualizer-map_example = apply_visualizer-map (delete_shown node_a) one_value one_value-Proper

abbrev following_node : Node (List Bytes) Bytes
following_node = record small_node { core = blank_node; storage = image blank_node [] }

following_node-Synced : Synced decode_all append_all_bytes keep_bytes following_node
unfolding program
following_node-Synced = record {
  sound = blank_node-Sound;
  idle = refl;
  floor = omega arith;
  history = [];
  stored = refl;
}

process-Processed_example :
    Processed decode_all append_all_bytes keep_bytes following_node
      (step (message append_first) blank_node)
      []
      (process decode_all append_all_bytes keep_bytes (message append_first) following_node)
unfolding program
process-Processed_example =
    process-Processed decode_all append_all_bytes keep_bytes (message append_first) following_node
      [] (λ m e a. append_first-Ordered m e) following_node-Synced refl
