-- ===== src/Core.antt =====
-- packages/raft-core/src/raft.ts: the class `RaftCore`.
pub mod State
pub mod Leader
pub mod Handlers
pub mod Step
pub mod Closure
pub mod Ballots
pub mod Log
pub mod Sound
pub mod Totality
pub mod Ready
pub mod Commit
pub mod Accounts
pub mod Deltas
pub mod Chains
pub mod Agreement
pub mod Reading
pub mod Linked
