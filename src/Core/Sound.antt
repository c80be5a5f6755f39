-- ===== src/Core/Sound.antt =====
-- The invariants that `#assertInvariants` tests, with those of the leader's progress, and what the
-- committed part of the log keeps through a step. The errors that a step may throw.
use node_raft_rsm.Base.{
  ℕ, zero, suc, ◌+◌, ◌≤◌, ◌<◌, ◌≡◌, ◌≢◌, ◌∙◌, inl, inr, true, has, get, length, length-append, leb,
  ◌==◌, Option, none, some, List, [], ◌∷◌, ◌++◌, Result, Exec, ok, err, proceed, ◌>>◌, arith,
  Bool-cases, Option-cases,
}
use node_raft_rsm.Types.{NodeId, Role, leader, LogEntry, Snapshot}
use node_raft_rsm.Core.State.{
  PeerProgress, RaftCore, Error, find_entry, boundary, last_log_index, peers,
}
use node_raft_rsm.Core.Leader.{quorum_index, initial_progress}
use node_raft_rsm.Core.Handlers.{Appending, drop_from, resolve_conflict, extend_log, append_entries}
use node_raft_rsm.Core.Log.{
  Contiguous, last_index-Contiguous, Contiguous-snoc, Contiguous-below, length-below,
  find_entry-below, find_entry-append, find_entry-range,
}

pub record LogOk (snapshot : Option Snapshot) (entries : List LogEntry) (commit applied : ℕ)
    : Type 0 where
  pub contiguous : Contiguous (suc (boundary snapshot)) entries
  pub floor : boundary snapshot ≤ commit
  pub ceiling : commit ≤ boundary snapshot + length entries
  pub done : applied ≤ commit

-- A leader knows where each peer stands, and no next index is zero.
pub record ProgressOk (role : Role) (ps : List NodeId) (progress : List (NodeId × PeerProgress))
    : Type 0 where
  pub complete : role ≡ leader → (p : NodeId) → has p ps ≡ true → get progress p ≢ none
  pub positive : (p : NodeId) (q : PeerProgress) → get progress p ≡ some q → 1 ≤ q.next_index

-- What the object `c` keeps from the object `b` that the step began with.
pub record Extends (b c : RaftCore) : Type 0 where
  pub log : LogOk c.snapshot c.entries c.commit_index c.applied_index
  pub progress : ProgressOk c.role (peers c) c.progress
  pub same_snapshot : c.snapshot ≡ b.snapshot
  pub same_applied : c.applied_index ≡ b.applied_index
  pub same_outstanding : c.outstanding ≡ b.outstanding
  pub same_sequence : c.ready_sequence ≡ b.ready_sequence
  pub commit_grows : b.commit_index ≤ c.commit_index
  pub committed_kept :
      (i : ℕ) → i ≤ b.commit_index → find_entry c.entries i ≡ find_entry b.entries i

pub last_of :
    (b c : RaftCore) → Extends b c → last_log_index c ≡ boundary c.snapshot + length c.entries
last_of b c x = last_index-Contiguous c.snapshot c.entries x.log.contiguous

-- The log changes, and nothing else.
abbrev with_entries : RaftCore → List LogEntry → RaftCore
with_entries c es = record c { entries = es }

push-kept :
    (c : RaftCore) (e : LogEntry) (i : ℕ)
    → Contiguous (suc (boundary c.snapshot)) c.entries
    → e.index ≡ last_log_index c + 1
    → i < e.index
    → find_entry (c.entries ++ e ∷ []) i ≡ find_entry c.entries i
unfolding find_entry
push-kept c e i k h l = ground (arith, find_entry-append c.entries (e ∷ []) i)

pub push-Extends :
    (b c : RaftCore) (e : LogEntry)
    → Extends b c
    → e.index ≡ last_log_index c + 1
    → Extends b (with_entries c (c.entries ++ e ∷ []))
push-Extends b c e x h =
    let last = last_of b c x in
    record {
      log = record {
        contiguous =
            Contiguous-snoc (suc (boundary c.snapshot)) c.entries e x.log.contiguous
              (omega (arith, last));
        floor = x.log.floor;
        ceiling = omega (arith, length-append c.entries (e ∷ []), x.log.ceiling);
        done = x.log.done;
      };
      progress = x.progress;
      same_snapshot = x.same_snapshot;
      same_applied = x.same_applied;
      same_outstanding = x.same_outstanding;
      same_sequence = x.same_sequence;
      commit_grows = x.commit_grows;
      committed_kept = λ i l.
          push-kept c e i x.log.contiguous h (omega (arith, last, x.log.ceiling, x.commit_grows))
          ∙ x.committed_kept i l;
    }

pub truncate-Extends :
    (b c : RaftCore) (k : ℕ)
    → Extends b c
    → c.commit_index < k
    → k ≤ boundary c.snapshot + length c.entries
    → Extends b (drop_from k c)
truncate-Extends b c k x h u = record {
  log = record {
    contiguous = Contiguous-below _ k c.entries x.log.contiguous;
    floor = x.log.floor;
    ceiling =
        omega (
          arith,
          x.log.floor,
          length-below (suc (boundary c.snapshot)) k c.entries x.log.contiguous,
        );
    done = x.log.done;
  };
  progress = x.progress;
  same_snapshot = x.same_snapshot;
  same_applied = x.same_applied;
  same_outstanding = x.same_outstanding;
  same_sequence = x.same_sequence;
  commit_grows = x.commit_grows;
  committed_kept =
      λ i l. find_entry-below k i c.entries (omega (arith, x.commit_grows)) ∙ x.committed_kept i l;
}

pub resolve_conflict-Extends :
    (b : RaftCore) (e : LogEntry) (a : Appending)
    → Extends b a.core
    → Extends b (resolve_conflict e a).1.core
unfolding resolve_conflict
resolve_conflict-Extends b e a x = elim (Option-cases (find_entry a.core.entries e.index)) [
  | inl n ↦ rw (n, resolve_conflict) x
  | inr (f, n) ↦ elim (Bool-cases (f.term == e.term)) [
    | inl s ↦ rw (n, resolve_conflict, s) x
    | inr s ↦ elim (Bool-cases (leb e.index a.core.commit_index)) [
      | inl l ↦ rw (n, resolve_conflict, s, l) x
      | inr l ↦
          let (lo, hi, at) = find_entry-range _ e.index a.core.entries f x.log.contiguous n in
          rw (n, resolve_conflict, s, l)
            (truncate-Extends b a.core e.index x (ground arith) (omega (arith, hi)))
    ]
  ]
]

pub extend_log-Extends :
    (b : RaftCore) (e : LogEntry) (a : Appending)
    → Extends b a.core
    → Extends b (extend_log e a).1.core
unfolding extend_log
extend_log-Extends b e a x = elim (Option-cases (find_entry a.core.entries e.index)) [
  | inr (f, n) ↦ rw (n, extend_log) x
  | inl n ↦ elim (Bool-cases (e.index == last_log_index a.core + 1)) [
    | inl s ↦ rw (n, extend_log, s) (push-Extends b a.core e x (ground arith))
    | inr s ↦ rw (n, extend_log, s) x
  ]
]

proceed-Extends :
    (b : RaftCore) (r : Result Error Unit) (k : Exec Error Appending Unit) (a : Appending)
    → ((d : Appending) → Extends b d.core → Extends b (k d).1.core)
    → Extends b a.core
    → Extends b (proceed r (λ _. k) a).1.core
proceed-Extends b (ok _) k a h x = h a x
proceed-Extends b (err e) k a h x = x

pub append_entries-Extends :
    (b : RaftCore) (es : List LogEntry) (a : Appending)
    → Extends b a.core
    → Extends b (append_entries es a).1.core
unfolding append_entries
append_entries-Extends b [] a x = x
append_entries-Extends b (e ∷ es) a x =
    proceed-Extends b (resolve_conflict e a).0 (extend_log e >> append_entries es) _
      (λ d y.
        proceed-Extends b (extend_log e d).0 (append_entries es) _ (append_entries-Extends b es)
          (extend_log-Extends b e d y))
      (resolve_conflict-Extends b e a x)

pub quorum_index-range :
    (c : RaftCore) (k i : ℕ)
    → quorum_index c k ≡ some i
    → (c.commit_index < i) × (i ≤ c.commit_index + k)
unfolding quorum_index
quorum_index-range c zero i h = cc
quorum_index-range c (suc k) i h = ground (arith, quorum_index-range c k i)

pub commit-Extends :
    (b c : RaftCore) (i : ℕ)
    → Extends b c
    → c.commit_index ≤ i
    → i ≤ last_log_index c
    → Extends b (record c { commit_index = i })
commit-Extends b c i x h u = record {
  log = record {
    contiguous = x.log.contiguous;
    floor = omega (arith, x.log.floor);
    ceiling = omega (arith, last_of b c x);
    done = omega (arith, x.log.done);
  };
  progress = x.progress;
  same_snapshot = x.same_snapshot;
  same_applied = x.same_applied;
  same_outstanding = x.same_outstanding;
  same_sequence = x.same_sequence;
  commit_grows = omega (arith, x.commit_grows);
  committed_kept = x.committed_kept;
}

pub progress-Extends :
    (b c d : RaftCore)
    → Extends b c
    → ProgressOk d.role (peers d) d.progress
    → d.snapshot ≡ c.snapshot
    → d.entries ≡ c.entries
    → d.commit_index ≡ c.commit_index
    → d.applied_index ≡ c.applied_index
    → d.outstanding ≡ c.outstanding
    → d.ready_sequence ≡ c.ready_sequence
    → Extends b d
progress-Extends b c d x p s e k a o q = record {
  log = rw (s, e, k, a) x.log;
  progress = p;
  same_snapshot = s ∙ x.same_snapshot;
  same_applied = a ∙ x.same_applied;
  same_outstanding = o ∙ x.same_outstanding;
  same_sequence = q ∙ x.same_sequence;
  commit_grows = rw k x.commit_grows;
  committed_kept = λ i l. rw e (x.committed_kept i l);
}

pub initial_progress_complete :
    (n : ℕ) (ps : List NodeId) (p : NodeId) → has p ps ≡ true → get (initial_progress n ps) p ≢ none
unfolding initial_progress
initial_progress_complete n [] p h e = cc
initial_progress_complete n (q ∷ ps) p h e = ground (arith, initial_progress_complete n ps p)

pub initial_progress-positive :
    (n : ℕ) (ps : List NodeId) (p : NodeId) (q : PeerProgress)
    → get (initial_progress (n + 1) ps) p ≡ some q
    → 1 ≤ q.next_index
unfolding initial_progress
initial_progress-positive n [] p q h = cc
initial_progress-positive n (r ∷ ps) p q h = ground (arith, initial_progress-positive n ps p q)
