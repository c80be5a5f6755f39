-- ===== src/Kv.antt =====
-- examples/replicated-kv/src/state-machine.ts and
-- packages/raft-visualizer/src/server/kv-state-machine.ts: the two key-value machines. The snapshots
-- and the state hash call JSON and a hash function, and are not here.
pub mod Lookup
use node_raft_rsm.Base.{
  ℕ, Bool, true, false, Text, same, get, put, delete, if◌then◌else◌, Option, none, some, List, [],
  ◌∷◌,
}

pub data KvCommand : Type 0 where
  put_command : Text → Text → KvCommand
  delete_command : Text → KvCommand
  compare_and_set : Text → Option Text → Text → KvCommand

pub data KvResult : Type 0 where
  applied conflict : Option Text → KvResult

-- `===` on values that may be null
abbrev pub same_value : Option Text → Option Text → Bool
same_value none none = true
same_value none (some b) = false
same_value (some a) none = false
same_value (some a) (some b) = same a b

unfoldable pub apply_kv : KvCommand → List (Text × Text) → KvResult × List (Text × Text)
apply_kv (put_command key value) values = (applied (some value), put values key value)
apply_kv (delete_command key) values = (applied (get values key), delete values key)
apply_kv (compare_and_set key expected value) values =
    if same_value (get values key) expected
    then (applied (some value), put values key value)
    else (conflict (get values key), values)

-- `restoreSnapshot`, behind the parsing: the map is cleared, and its entries are set one by one.
abbrev pub restored : List (Text × Text) → List (Text × Text) → List (Text × Text)
restored [] values = values
restored ((key, value) ∷ entries) values = restored entries (put values key value)

pub data VisualizerCommand : Type 0 where
  put_shown : Text → Text → VisualizerCommand
  delete_shown : Text → VisualizerCommand

pub record VisualizerResult : Type 0 where
  pub previous_value : Option Text
  pub value : Option Text

abbrev pub key_of : VisualizerCommand → Text
key_of (put_shown key value) = key
key_of (delete_shown key) = key

abbrev pub change : VisualizerCommand → List (Text × Text) → List (Text × Text)
change (put_shown key value) values = put values key value
change (delete_shown key) values = delete values key

unfoldable pub apply_visualizer :
    VisualizerCommand → List (Text × Text) → VisualizerResult × List (Text × Text)
apply_visualizer c values = (
  record { previous_value = get values (key_of c); value = get (change c values) (key_of c) },
  change c values,
)
