-- ===== src/Lib.antt =====
-- A replicated state machine on Raft: the core of packages/raft-core, the storages that keep its
-- state, the network between its nodes, and what they keep together.
--
-- The program is a library in packages. packages/raft-core/src/raft.ts is a state machine without
-- I/O: `step` takes an event and returns a Ready, which says what to persist, what to send and what
-- to apply, and `advance` acknowledges it. packages/raft-node/src/node.ts runs a core: it persists,
-- sends and applies in that order. packages/raft-storage-memory/src/index.ts and
-- packages/raft-testing/src/restartable-storage.ts are storages in memory, and
-- packages/raft-transport-memory/src/index.ts carries messages and injects faults.
--
--   * Base, with its children: strings, lists, maps, methods that may throw, majorities.
--   * Types: packages/raft-core/src/types.ts, and PersistBatch of contracts.ts.
--   * Core: packages/raft-core/src/raft.ts. The private fields are the record RaftCore; a method is a
--     function on the object and the effects of the step, which returns or throws and leaves what it
--     wrote before a throw. Core/State, Leader, Handlers and Step hold the code; the files beside
--     them hold proofs. Core/Closure goes through the handlers once, for every invariant at a time.
--   * Cluster: a number of cores, the messages sent so far, which may arrive in any order, more
--     than once or never, and the votes cast. Its steps are events and advances of single nodes.
--     Core/Chains, Agreement, Reading and Linked follow a log through a step, as links to the
--     entry before, and Cluster/Logs and Matching follow who made them over a run.
--   * Storage: the class MemoryRaftStorage, method by method, and its place beside the core.
--   * Durable: the class DurableMemoryStorageState, and the handles to it.
--   * Network: the classes MemoryNetwork and MemoryRaftTransport.
--   * Primitives: packages/raft-testing/src/primitives.ts, the seeded random numbers and the virtual
--     clock, whose loop is on fuel; Primitives/Timers gives the fuel that is enough where callbacks
--     arm at most one later timer. Other callbacks may keep the loop going for ever.
--   * Testing: `assertInvariants` of packages/raft-testing/src/test-cluster.ts, and what it finds on
--     the runs of Cluster.
--   * Node: packages/raft-node/src/node.ts, what a node does with a Ready, its table of commands,
--     in Node/Recovery its making from a storage, and in Node/Lifecycle its starting and stopping.
--     Its operations run one after the other; see below on what the code interleaves.
--   * Kv: examples/replicated-kv/src/state-machine.ts and the machine of the visualizer in
--     packages/raft-visualizer/src/server/kv-state-machine.ts.
--   * Tests: runs at concrete inputs.
--
-- Numbers: a bigint of the source never is negative here and is a natural number; where the source
-- subtracts one, the number is at least one, as Core/Sound shows of a peer's next index. No such
-- number has a bound. The seeded generator computes with doubles: there a number is an integer, and
-- Primitives/Doubles rounds it to 53 bits as JavaScript does. Strings are lists of their code units,
-- byte arrays lists of bytes. The rounding halves a number at most 64 times, which is enough below
-- 2^117; a product of the generator is below 2^86.
-- Loops: all are recursions on lists, but three. The virtual clock's is on fuel. The search of the
-- leader for a commit index counts down from the last index to the commit index, by recursion on that
-- number. `drain` of the network recurses on the limit that the code itself counts to, and fails where
-- the code throws.
-- Methods that the source declares async run as one step here, and no call of another runs inside one.
-- The code lets one run at each await, and what reads its object again afterwards may find it changed:
-- `installSnapshot` of MemoryRaftStorage goes on after it has called `persist`; `#apply` of RaftNode
-- reads the table of pending commands, which `stop` and `propose` change; `campaign`, `heartbeat` and
-- `propose` test that the node runs before they wait for its queue; and a storage may be closed between
-- its first test and its work. Such interleavings are not modelled.
--
-- Not modelled: timers, promises and role events in packages/raft-node/src/node.ts; the codec, which
-- only calls JSON and the text encoders; the rest of the visualizer in packages/raft-visualizer and
-- the demo, which are a user interface, a server and scripts; the checksums of snapshots; the starting
-- of members, the draining and the proposals of the test cluster in packages/raft-testing.
-- Snapshots are carried by the core and by the storages, and no message installs one, as in the code.
pub mod Base
pub mod Types
pub mod Core
pub mod Storage
pub mod Durable
pub mod Network
pub mod Primitives
pub mod Testing
pub mod Node
pub mod Kv
pub mod Cluster
mod Tests
