-- ===== src/Storage.antt =====
-- packages/raft-storage-memory/src/index.ts: the class `MemoryRaftStorage`. A method runs as one
-- step: nothing else runs between its tests and its writes. A copy of a value is the value.
pub mod Batches
pub mod Refinement
use node_raft_rsm.Base.{
  ℕ, ◌+◌, Bool, true, false, ◌&&◌, ◌||◌, not, Text, keep, first, last?, length, ltb, leb, ◌==◌,
  if◌then◌else◌, Option, none, some, List, [], ◌∷◌, ◌++◌, Result, ok, err, Exec, ◌>>=◌, ◌>>◌,
  modify, raise, guard,
}
use node_raft_rsm.Types.{HardState, LogEntry, Snapshot, PersistBatch, PersistedRaftState}
use node_raft_rsm.Core.State.{boundary, last_index}

pub data StorageError : Type 0 where
  closed : StorageError
  injected : Text → StorageError
  truncates_committed not_contiguous term_decreased commit_decreased : StorageError
  invalid_applied compacts_beyond_snapshot : StorageError

pub record MemoryRaftStorage : Type 0 where
  pub hard_state : HardState
  pub entries : List LogEntry
  pub snapshot : Option Snapshot
  pub applied_index : ℕ
  pub is_closed : Bool
  pub failure : Option Text
  pub history : List PersistBatch

abbrev pub empty : MemoryRaftStorage
empty = record {
  hard_state = record { current_term = 0; voted_for = none; commit_index = 0 };
  entries = [];
  snapshot = none;
  applied_index = 0;
  is_closed = false;
  failure = none;
  history = [];
}

abbrev pub Method : Type 0 → Type 0
Method A = Exec StorageError MemoryRaftStorage A

unfoldable pub fail_next : Text → MemoryRaftStorage → MemoryRaftStorage
fail_next error s = record s { failure = some error }

unfoldable pub load : Method PersistedRaftState
load s = if s.is_closed then (err closed, s) else (
  ok (record {
    hard_state = s.hard_state;
    entries = s.entries;
    snapshot = s.snapshot;
    applied_index = s.applied_index;
  }),
  s,
)

-- `while (last.index >= from) nextEntries.pop()`
unfoldable pub pop_from : ℕ → List LogEntry → List LogEntry
pop_from k [] = []
pop_from k (e ∷ es) = elim (pop_from k es) [
  | [] ↦ if leb k e.index then [] else e ∷ []
  | f ∷ fs ↦ e ∷ f ∷ fs
]

unfoldable pub truncated : Option ℕ → ℕ → List LogEntry → Result StorageError (List LogEntry)
truncated none commit entries = ok entries
truncated (some k) commit entries =
    if leb k commit then err truncates_committed else ok (pop_from k entries)

-- The loop that pushes the entries of a batch.
unfoldable pub extended :
    Option Snapshot → List LogEntry → List LogEntry → Result StorageError (List LogEntry)
extended snapshot next [] = ok next
extended snapshot next (e ∷ es) =
    let rest = extended snapshot (next ++ e ∷ []) es in
    if e.index == last_index (last? next) snapshot + 1 then rest else err not_contiguous

unfoldable pub write_hard_state : Option HardState → Method Unit
write_hard_state none s = (ok tt, s)
write_hard_state (some h) s =
    if ltb h.current_term s.hard_state.current_term
    then (err term_decreased, s)
    else if ltb h.commit_index s.hard_state.commit_index
    then (err commit_decreased, s)
    else (ok tt, record s { hard_state = h })

unfoldable pub write_applied : Option ℕ → Method Unit
write_applied none s = (ok tt, s)
write_applied (some i) s =
    if ltb i s.applied_index || ltb s.hard_state.commit_index i
    then (err invalid_applied, s)
    else (ok tt, record s { applied_index = i })

abbrev pub newer : Option Snapshot → Option Snapshot → Option Snapshot
newer none old = old
newer (some s) old = some s

abbrev pub write_log : PersistBatch → List LogEntry → Method Unit
write_log b next s = (
  ok tt,
  record s {
    entries = next;
    snapshot = newer b.snapshot s.snapshot;
    history = s.history ++ b ∷ [];
  },
)

-- The body of `persist` once the new list of entries is there.
unfoldable pub write_batch : PersistBatch → Result StorageError (List LogEntry) → Method Unit
write_batch b (err e) s = (err e, s)
write_batch b (ok next) s =
    (do write_hard_state b.hard_state; write_applied b.applied_index; write_log b next) s

unfoldable pub next_entries : PersistBatch → MemoryRaftStorage → Result StorageError (List LogEntry)
next_entries b s = elim (truncated b.truncate_from s.hard_state.commit_index s.entries) [
  | err e ↦ err e
  | ok kept ↦ extended s.snapshot kept b.entries
]

-- `persist` past its test of an injected failure.
abbrev pub persist_after : PersistBatch → Option Text → Method Unit
persist_after b (some error) s = (err (injected error), record s { failure = none })
persist_after b none s = write_batch b (next_entries b s) s

unfoldable pub persist : PersistBatch → Method Unit
persist b s = if s.is_closed then (err closed, s) else persist_after b s.failure s

abbrev pub find : List LogEntry → ℕ → Option LogEntry
find entries index = first (λ e. e.index == index) entries

abbrev pub term_of : Option LogEntry → Option ℕ
term_of none = none
term_of (some e) = some e.term

abbrev pub stored_term : Option Snapshot → ℕ → Option ℕ → Option ℕ
stored_term none index t = t
stored_term (some s) index t =
    if s.last_included_index == index then some s.last_included_term else t

unfoldable pub get_term : ℕ → Method (Option ℕ)
get_term index s =
    if s.is_closed
    then (err closed, s)
    else (ok (stored_term s.snapshot index (term_of (find s.entries index))), s)

unfoldable pub get_entry : ℕ → Method (Option LogEntry)
get_entry index s = if s.is_closed then (err closed, s) else (ok (find s.entries index), s)

abbrev pub over_limit : Option ℕ → List LogEntry → ℕ → LogEntry → Bool
over_limit none result bytes e = false
over_limit (some limit) [] bytes e = false
over_limit (some limit) (_ ∷ _) bytes e = ltb limit (bytes + length e.payload)

-- The loop of `getEntries`, with its variables `result` and `bytes`.
unfoldable pub collect : ℕ → ℕ → Option ℕ → List LogEntry → List LogEntry → ℕ → List LogEntry
collect from to limit [] result bytes = result
collect from to limit (e ∷ es) result bytes =
    let skipped = collect from to limit es result bytes in
    let taken = collect from to limit es (result ++ e ∷ []) (bytes + length e.payload) in
    if ltb e.index from || leb to e.index
    then skipped
    else if over_limit limit result bytes e
    then result
    else taken

unfoldable pub get_entries : ℕ → ℕ → Option ℕ → Method (List LogEntry)
get_entries from to limit s =
    if s.is_closed then (err closed, s) else (ok (collect from to limit s.entries [] 0), s)

abbrev pub snapshot_batch : Snapshot → PersistBatch
snapshot_batch snapshot = record {
  hard_state = none;
  truncate_from = none;
  entries = [];
  snapshot = some snapshot;
  applied_index = none;
}

abbrev pub max_bigint : ℕ → ℕ → ℕ
max_bigint left right = if ltb right left then left else right

abbrev pub after : ℕ → List LogEntry → List LogEntry
after index = keep (λ e. ltb index e.index)

abbrev pub cover : Snapshot → MemoryRaftStorage → MemoryRaftStorage
cover snapshot s = record s {
  entries = after snapshot.last_included_index s.entries;
  hard_state = record s.hard_state {
    commit_index = max_bigint s.hard_state.commit_index snapshot.last_included_index;
  };
  applied_index = max_bigint s.applied_index snapshot.last_included_index;
}

-- The code awaits `this.persist` and goes on; this is the method when no other call runs in between.
unfoldable pub install_snapshot : Snapshot → Method Unit
install_snapshot snapshot s = (do persist (snapshot_batch snapshot); modify (cover snapshot)) s

abbrev pub covers : Option Snapshot → ℕ → Bool
covers none index = false
covers (some s) index = leb index s.last_included_index

unfoldable pub compact : ℕ → Method Unit
compact through s =
    if s.is_closed
    then (err closed, s)
    else if covers s.snapshot through
    then (ok tt, record s { entries = after through s.entries })
    else (err compacts_beyond_snapshot, s)

unfoldable pub close : MemoryRaftStorage → MemoryRaftStorage
close s = record s { is_closed = true }
