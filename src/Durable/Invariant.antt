-- ===== src/Durable/Invariant.antt =====
-- The calls on the durable state: each does all of its work or none, and no call takes the state back.
use node_raft_rsm.Base.{
  ℕ, suc, All, Text, ◌+◌, ◌≤◌, ◌<◌, ◌≡◌, refl, sym, ap, subst, inl, inr, true, last?, length, ltb,
  Option, none, some, List, [], ◌∷◌, ◌++◌, Result, ok, err, arith, Bool-cases,
}
use node_raft_rsm.Types.{LogEntry, Snapshot, PersistBatch, PersistedRaftState}
use node_raft_rsm.Core.State.{boundary, last_index, find_entry}
use node_raft_rsm.Core.Log.{Contiguous, last_index-Contiguous}
use node_raft_rsm.Core.Accounts.{cut}
use node_raft_rsm.Storage.{after, covers, newer}
use node_raft_rsm.Durable.{
  DurableError, DurableMemoryStorageState, inspect, check_hard_state, check_applied, or_kept,
  written, write_after, write_checked, entries_after, persist_unless, persist_durable, covered,
  install_durable, compact_durable, Call, persist_call, install_call, compact_call, run_call,
}
use node_raft_rsm.Durable.Growth.{
  Intact, Grew, unchanged-Grew, Rewritten, Rewritten-found, entries_after-ok,
  check_hard_state-Allowed, check_applied-ok,
}

-- A write that returned: the new log, nothing taken back, the committed entries in place. A write
-- that threw: what can be loaded is what could be loaded before.
abbrev pub Persisted :
    PersistBatch
    → DurableMemoryStorageState
    → Result DurableError Unit × DurableMemoryStorageState
    → Type 0
Persisted b s (ok _, t) =
    Grew s t
    × (t ≡ written b (cut b.truncate_from s.entries ++ b.entries) s)
    × ((i : ℕ) → i ≤ s.hard_state.commit_index → find_entry t.entries i ≡ find_entry s.entries i)
Persisted b s (err e, t) = inspect t ≡ inspect s

module _ (b : PersistBatch) (s : DurableMemoryStorageState) (none_new : b.snapshot ≡ none)
    (w : Intact s) where
  written-Grew :
      (out : List LogEntry)
      → Rewritten b s out
      → check_hard_state s.hard_state
          (or_kept b.hard_state s.hard_state)
          (last_index (last? out) (newer b.snapshot s.snapshot))
        ≡ ok tt
      → check_applied s.applied_index
          (or_kept b.applied_index s.applied_index)
          (or_kept b.hard_state s.hard_state).commit_index
        ≡ ok tt
      → Grew s (written b out s)
  written-Grew out r h a =
      let allowed = check_hard_state-Allowed s.hard_state (or_kept b.hard_state s.hard_state) _ h in
      let (rises, below_commit) =
        check_applied-ok s.applied_index (or_kept b.applied_index s.applied_index) _ a in
      record {
        intact = rw none_new (record {
          contiguous = r.contiguous;
          floor = omega (arith, allowed.commit_grows, w.floor);
          ceiling = omega (
            arith,
            subst
                (λ p.
                  (or_kept b.hard_state s.hard_state).commit_index
                  ≤ last_index (last? out) (newer p s.snapshot))
                none_new allowed.bounded,
            last_index-Contiguous s.snapshot out r.contiguous,
          );
          done = below_commit;
        });
        term_grows = allowed.term_grows;
        vote_kept = allowed.vote_kept;
        commit_grows = allowed.commit_grows;
        applied_grows = rises;
      }

  write_after-Persisted :
      (out : List LogEntry) (h a : Result DurableError Unit)
      → Rewritten b s out
      → check_hard_state s.hard_state
          (or_kept b.hard_state s.hard_state)
          (last_index (last? out) (newer b.snapshot s.snapshot))
        ≡ h
      → check_applied s.applied_index
          (or_kept b.applied_index s.applied_index)
          (or_kept b.hard_state s.hard_state).commit_index
        ≡ a
      → Persisted b s (write_after b out h a s)
  write_after-Persisted out (err e) a r h g = refl
  write_after-Persisted out (ok _) (err e) r h g = refl
  write_after-Persisted out (ok _) (ok _) r h g = (
    written-Grew out r h g,
    ap (λ es. written b es s) r.logged,
    λ i l. Rewritten-found b s out i w r l,
  )

  write_checked-Persisted :
      (out : Result DurableError (List LogEntry))
      → entries_after b s ≡ out
      → Persisted b s (write_checked b out s)
  write_checked-Persisted (err e) h = refl
  write_checked-Persisted (ok es) h =
      write_after-Persisted es _ _ (entries_after-ok b s es h w.contiguous) refl refl

  persist_unless-Persisted : (f : Option Text) → Persisted b s (persist_unless f b s)
  persist_unless-Persisted (some e) = refl
  persist_unless-Persisted none = write_checked-Persisted (entries_after b s) refl

pub persist_durable-Persisted :
    (b : PersistBatch) (s : DurableMemoryStorageState)
    → b.snapshot ≡ none
    → Intact s
    → Persisted b s (persist_durable b s)
unfolding persist_durable
persist_durable-Persisted b s none_new w = persist_unless-Persisted b s none_new w s.failure

after-all : (n l : ℕ) (es : List LogEntry) → l < n → Contiguous n es → after l es ≡ es
after-all n l [] h c = refl
after-all n l (e ∷ es) h c = ground (arith, after-all (suc n) l es (omega arith) c.1)

after-Contiguous :
    (n l : ℕ) (es : List LogEntry)
    → n ≤ suc l
    → Contiguous n es
    → Contiguous (suc l) (after l es) × (n + length es ≤ suc l + length (after l es))
after-Contiguous n l [] h c = (tt, omega arith)
after-Contiguous n l (e ∷ es) h c = elim (Bool-cases (ltb l e.index)) [
  | inl g ↦
      rw (g, after-all (suc n) l es (ground arith) c.1)
        ((ground arith, subst (λ k. Contiguous (suc k) es) (ground arith) c.1), omega (arith, h))
  | inr g ↦
      let (k, long) = after-Contiguous (suc n) l es (ground arith) c.1 in
      rw g (k, omega (arith, long))
]

covered-Grew :
    (snapshot : Snapshot) (s : DurableMemoryStorageState)
    → boundary s.snapshot ≤ snapshot.last_included_index
    → Intact s
    → Grew s (covered snapshot s)
unfolding boundary
covered-Grew snapshot s l w =
    let (k, long) =
      after-Contiguous (suc (boundary s.snapshot)) snapshot.last_included_index s.entries
        (omega arith) w.contiguous in
    record {
      intact = record {
        contiguous = k;
        floor = ground arith;
        ceiling = ground (arith, long, w.ceiling);
        done = ground (arith, w.done);
      };
      term_grows = omega arith;
      vote_kept = λ v t e. e;
      commit_grows = ground arith;
      applied_grows = ground arith;
    }

install_durable-Grew :
    (snapshot : Snapshot) (s : DurableMemoryStorageState)
    → Intact s
    → Grew s (install_durable snapshot s).1
unfolding install_durable
install_durable-Grew snapshot s w =
    elim (Bool-cases (ltb snapshot.last_included_index (boundary s.snapshot))) [
      | inl g ↦ rw g (unchanged-Grew s s.failure w)
      | inr g ↦ rw g (covered-Grew snapshot s (ground arith) w)
    ]

covers-boundary : (p : Option Snapshot) (n : ℕ) → covers p n ≡ true → n ≤ boundary p
unfolding boundary
covers-boundary none n h = absurd cc
covers-boundary (some p) n h = ground arith

compacted :
    (s : DurableMemoryStorageState) (n : ℕ)
    → Intact s
    → covers s.snapshot n ≡ true
    → after n s.entries ≡ s.entries
compacted s n w h =
    after-all (suc (boundary s.snapshot)) n s.entries
      (omega (arith, covers-boundary s.snapshot n h)) w.contiguous

-- On an intact state, compaction changes nothing: either it throws, or the entries that it may drop
-- have gone with the snapshot that covers them.
pub compact_durable-unchanged :
    (n : ℕ) (s : DurableMemoryStorageState) → Intact s → (compact_durable n s).1 ≡ s
unfolding compact_durable
compact_durable-unchanged n s w = elim (Bool-cases (covers s.snapshot n)) [
  | inl g ↦ rw (g, compacted s n w g) refl
  | inr g ↦ rw g refl
]

-- A call that writes no snapshot by a batch: `installSnapshot` is there for that.
abbrev pub Plain : Call → Type 0
Plain (persist_call b) = b.snapshot ≡ none
Plain (install_call snapshot) = Unit {0}
Plain (compact_call through) = Unit {0}

abbrev loaded : PersistedRaftState → Option Text → DurableMemoryStorageState
loaded q f = record {
  hard_state = q.hard_state;
  entries = q.entries;
  snapshot = q.snapshot;
  applied_index = q.applied_index;
  failure = f;
}

Persisted-Grew :
    (b : PersistBatch) (s : DurableMemoryStorageState) (r : Result DurableError Unit)
    (t : DurableMemoryStorageState)
    → Intact s
    → Persisted b s (r, t)
    → Grew s t
Persisted-Grew b s (ok _) t w p = p.0
Persisted-Grew b s (err e) t w p =
    subst (λ q. Grew s (loaded q t.failure)) (sym p) (unchanged-Grew s t.failure w)

run_call-Grew :
    (k : Call) (s : DurableMemoryStorageState) → Plain k → Intact s → Grew s (run_call k s).1
run_call-Grew (persist_call b) s h w =
    Persisted-Grew b s (persist_durable b s).0 (persist_durable b s).1 w
      (persist_durable-Persisted b s h w)
run_call-Grew (install_call snapshot) s h w = install_durable-Grew snapshot s w
run_call-Grew (compact_call n) s h w =
    subst (Grew s) (sym (compact_durable-unchanged n s w)) (unchanged-Grew s s.failure w)

-- The calls, one after the other, whether they return or throw.
abbrev pub run_calls : List Call → DurableMemoryStorageState → DurableMemoryStorageState
run_calls [] s = s
run_calls (k ∷ ks) s = run_calls ks (run_call k s).1

Grew-trans : (s t u : DurableMemoryStorageState) → Grew s t → Grew t u → Grew s u
Grew-trans s t u g h = record {
  intact = h.intact;
  term_grows = omega (arith, g.term_grows, h.term_grows);
  vote_kept = λ v same_term e.
      h.vote_kept v (omega (arith, same_term, g.term_grows, h.term_grows))
        (g.vote_kept v (omega (arith, same_term, g.term_grows, h.term_grows)) e);
  commit_grows = omega (arith, g.commit_grows, h.commit_grows);
  applied_grows = omega (arith, g.applied_grows, h.applied_grows);
}

-- Any sequence of calls on an intact state, whichever of them return or throw, leaves an intact
-- state, if snapshots are installed by `installSnapshot` only. Over the whole sequence the term, the
-- commit index and the applied index do not fall, and while the term stays, a vote stays.
pub run_calls-Grew :
    (ks : List Call) (s : DurableMemoryStorageState)
    → All Plain ks
    → Intact s
    → Grew s (run_calls ks s)
run_calls-Grew [] s h w = unchanged-Grew s s.failure w
run_calls-Grew (k ∷ ks) s h w =
    let first_step = run_call-Grew k s h.0 w in
    Grew-trans s (run_call k s).1 (run_calls ks (run_call k s).1) first_step
      (run_calls-Grew ks (run_call k s).1 h.1 first_step.intact)
