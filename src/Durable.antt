-- ===== src/Durable.antt =====
-- packages/raft-testing/src/restartable-storage.ts: a state that outlives the handles to it. A method
-- runs as one step. A copy of a value is the value.
pub mod Growth
pub mod Invariant
use node_raft_rsm.Base.{
  ℕ, ◌+◌, Bool, true, false, ◌&&◌, ◌||◌, not, Text, first, last?, ltb, leb, ◌==◌, same,
  if◌then◌else◌, Option, none, some, List, [], ◌∷◌, ◌++◌, Result, ok, err, Exec,
}
use node_raft_rsm.Types.{NodeId, HardState, LogEntry, Snapshot, PersistBatch, PersistedRaftState}
use node_raft_rsm.Core.State.{boundary, last_index}
use node_raft_rsm.Storage.{
  newer, after, max_bigint, covers, find, term_of, stored_term, collect, pop_from,
}

pub data DurableError : Type 0 where
  injected : Text → DurableError
  handle_closed truncates_committed not_contiguous term_decreased voted_twice : DurableError
  commit_decreased commit_outside_log applied_decreased applied_exceeds_commit : DurableError
  snapshot_moved_backward compacts_beyond_snapshot : DurableError

pub record DurableMemoryStorageState : Type 0 where
  pub hard_state : HardState
  pub entries : List LogEntry
  pub snapshot : Option Snapshot
  pub applied_index : ℕ
  pub failure : Option Text

abbrev pub blank : DurableMemoryStorageState
blank = record {
  hard_state = record { current_term = 0; voted_for = none; commit_index = 0 };
  entries = [];
  snapshot = none;
  applied_index = 0;
  failure = none;
}

abbrev pub DurableMethod : Type 0 → Type 0
DurableMethod A = Exec DurableError DurableMemoryStorageState A

abbrev pub arm_failure : Text → DurableMemoryStorageState → DurableMemoryStorageState
arm_failure error s = record s { failure = some error }

abbrev pub inspect : DurableMemoryStorageState → PersistedRaftState
inspect s = record {
  hard_state = s.hard_state;
  entries = s.entries;
  snapshot = s.snapshot;
  applied_index = s.applied_index;
}

unfoldable pub shortened : Option ℕ → ℕ → List LogEntry → Result DurableError (List LogEntry)
shortened none commit entries = ok entries
shortened (some k) commit entries =
    if leb k commit then err truncates_committed else ok (pop_from k entries)

-- The loop that pushes the entries of a batch.
unfoldable pub lengthened :
    Option Snapshot → List LogEntry → List LogEntry → Result DurableError (List LogEntry)
lengthened snapshot next [] = ok next
lengthened snapshot next (e ∷ es) =
    let rest = lengthened snapshot (next ++ e ∷ []) es in
    if e.index == last_index (last? next) snapshot + 1 then rest else err not_contiguous

abbrev pub same_vote : Option NodeId → Option NodeId → Bool
same_vote none none = true
same_vote none (some v) = false
same_vote (some v) none = false
same_vote (some v) (some w) = same v w

abbrev pub has_voted : Option NodeId → Bool
has_voted none = false
has_voted (some v) = true

-- The tests on the hard state, in the order of the code.
unfoldable pub check_hard_state : HardState → HardState → ℕ → Result DurableError Unit
check_hard_state old new last =
    if ltb new.current_term old.current_term
    then err term_decreased
    else if new.current_term == old.current_term
        && (has_voted old.voted_for && not (same_vote new.voted_for old.voted_for))
    then err voted_twice
    else if ltb new.commit_index old.commit_index
    then err commit_decreased
    else if ltb last new.commit_index
    then err commit_outside_log
    else ok tt

unfoldable pub check_applied : ℕ → ℕ → ℕ → Result DurableError Unit
check_applied old new commit =
    if ltb new old
    then err applied_decreased
    else if ltb commit new
    then err applied_exceeds_commit
    else ok tt

abbrev pub or_kept {ℓ} : {A : Type ℓ} → Option A → A → A
or_kept none a = a
or_kept (some b) a = b

-- The assignments at the end of `persist`.
abbrev pub written :
    PersistBatch → List LogEntry → DurableMemoryStorageState → DurableMemoryStorageState
written b next s = record s {
  entries = next;
  hard_state = or_kept b.hard_state s.hard_state;
  applied_index = or_kept b.applied_index s.applied_index;
  snapshot = newer b.snapshot s.snapshot;
}

abbrev pub write_after :
    PersistBatch
    → List LogEntry
    → Result DurableError Unit
    → Result DurableError Unit
    → DurableMethod Unit
write_after b next (err e) applied s = (err e, s)
write_after b next (ok _) (err e) s = (err e, s)
write_after b next (ok _) (ok _) s = (ok tt, written b next s)

-- The body of `persist` once the new list of entries is there.
abbrev pub write_checked : PersistBatch → Result DurableError (List LogEntry) → DurableMethod Unit
write_checked b (err e) s = (err e, s)
write_checked b (ok next) s =
    write_after b next
      (check_hard_state s.hard_state (or_kept b.hard_state s.hard_state)
        (last_index (last? next) (newer b.snapshot s.snapshot)))
      (check_applied s.applied_index (or_kept b.applied_index s.applied_index)
        (or_kept b.hard_state s.hard_state).commit_index)
      s

unfoldable pub entries_after :
    PersistBatch → DurableMemoryStorageState → Result DurableError (List LogEntry)
entries_after b s = elim (shortened b.truncate_from s.hard_state.commit_index s.entries) [
  | err e ↦ err e
  | ok kept ↦ lengthened s.snapshot kept b.entries
]

abbrev pub persist_unless : Option Text → PersistBatch → DurableMethod Unit
persist_unless (some error) b s = (err (injected error), record s { failure = none })
persist_unless none b s = write_checked b (entries_after b s) s

unfoldable pub persist_durable : PersistBatch → DurableMethod Unit
persist_durable b s = persist_unless s.failure b s

abbrev pub covered : Snapshot → DurableMemoryStorageState → DurableMemoryStorageState
covered snapshot s = record s {
  snapshot = some snapshot;
  entries = after snapshot.last_included_index s.entries;
  hard_state = record s.hard_state {
    commit_index = max_bigint s.hard_state.commit_index snapshot.last_included_index;
  };
  applied_index = max_bigint s.applied_index snapshot.last_included_index;
}

unfoldable pub install_durable : Snapshot → DurableMethod Unit
install_durable snapshot s =
    if ltb snapshot.last_included_index (boundary s.snapshot)
    then (err snapshot_moved_backward, s)
    else (ok tt, covered snapshot s)

unfoldable pub compact_durable : ℕ → DurableMethod Unit
compact_durable through s =
    if covers s.snapshot through
    then (ok tt, record s { entries = after through s.entries })
    else (err compacts_beyond_snapshot, s)

-- `RestartableMemoryRaftStorage`: a handle, which is open or closed, to the state.
abbrev pub opened : {A : Type 0} → Bool → DurableMethod A → DurableMethod A
opened is_closed m s = if is_closed then (err handle_closed, s) else m s

abbrev pub load_durable : DurableMethod PersistedRaftState
load_durable s = (ok (inspect s), s)

abbrev pub durable_term : ℕ → DurableMethod (Option ℕ)
durable_term index s = (ok (stored_term s.snapshot index (term_of (find s.entries index))), s)

abbrev pub durable_entry : ℕ → DurableMethod (Option LogEntry)
durable_entry index s = (ok (find s.entries index), s)

abbrev pub durable_entries : ℕ → ℕ → Option ℕ → DurableMethod (List LogEntry)
durable_entries from to limit s = (ok (collect from to limit s.entries [] 0), s)

-- A call on the handle: what it does on the state, behind the test that the handle is open.
pub data Call : Type 0 where
  persist_call : PersistBatch → Call
  install_call : Snapshot → Call
  compact_call : ℕ → Call

abbrev pub run_call : Call → DurableMethod Unit
run_call (persist_call b) = persist_durable b
run_call (install_call snapshot) = install_durable snapshot
run_call (compact_call through) = compact_durable through
