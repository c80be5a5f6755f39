-- ===== src/Core/Totality.antt =====
-- Which errors a step throws: those of its guards, and never one of `#assertInvariants` or of the
-- missing leader progress.
use node_raft_rsm.Base.{
  ℕ, suc, ◌+◌, ◌-◌, ◌≤◌, ◌≡◌, ◌≢◌, refl, subst, inl, inr, Text, Bytes, has, get, get-put, ◌==◌,
  Option, none, some, List, [], ◌∷◌, Result, Exec, ok, err, proceed, ◌>>◌, arith, Bool-cases,
  Result-cases,
}
use node_raft_rsm.Types.{NodeId, leader, EntryType, LogEntry, RaftMessage}
use node_raft_rsm.Core.State.{
  PeerProgress, RaftCore, State, Error, missing_progress, unknown_ready, log_not_contiguous,
  commit_outside_log, applied_exceeds_commit, cluster_size, local_not_member, members_not_unique,
  election_timeout_too_short, boundary, last_log_index, peers,
}
use node_raft_rsm.Core.Leader.{append_local, quorum_index, set_commit, take_office}
use node_raft_rsm.Core.Handlers.{
  become_follower, cast_vote, Appending, resolve_conflict, extend_log, append_entries, append_all,
  learn_commit, set_progress, acknowledged, backed_up, add_vote, check_envelope, stand,
  learned_commit,
}
use node_raft_rsm.Core.Step.{begin, check_proposal, assert_invariants}
use node_raft_rsm.Core.Closure.{Closed, After, Refuses}
use node_raft_rsm.Core.Log.{contiguous_from-Contiguous, last_index-Contiguous}
use node_raft_rsm.Core.Sound.{
  LogOk, ProgressOk, Extends, last_of, push-Extends, append_entries-Extends, quorum_index-range,
  commit-Extends, progress-Extends, initial_progress_complete, initial_progress-positive,
}

-- The errors that are guards of the code, and not violated invariants.
abbrev pub Guarded : Error → Type 0
Guarded missing_progress = ⊥
Guarded log_not_contiguous = ⊥
Guarded commit_outside_log = ⊥
Guarded applied_exceeds_commit = ⊥
Guarded unknown_ready = ⊥
Guarded cluster_size = ⊥
Guarded local_not_member = ⊥
Guarded members_not_unique = ⊥
Guarded election_timeout_too_short = ⊥
Guarded _ = Unit

abbrev pub Harmless : {A : Type 0} → Result Error A → Type 0
Harmless (ok _) = Unit
Harmless (err e) = Guarded e

resolve_conflict-Harmless : (e : LogEntry) (a : Appending) → Harmless (resolve_conflict e a).0
unfolding resolve_conflict
resolve_conflict-Harmless e a = ground arith

extend_log-Harmless : (e : LogEntry) (a : Appending) → Harmless (extend_log e a).0
unfolding extend_log
extend_log-Harmless e a = ground arith

proceed-Harmless :
    (r : Result Error Unit) (k : Exec Error Appending Unit) (a : Appending)
    → Harmless r
    → ((d : Appending) → Harmless (k d).0)
    → Harmless (proceed r (λ _. k) a).0
proceed-Harmless (ok _) k a h g = g a
proceed-Harmless (err e) k a h g = h

append_entries-Harmless : (es : List LogEntry) (a : Appending) → Harmless (append_entries es a).0
unfolding append_entries
append_entries-Harmless [] a = tt
append_entries-Harmless (e ∷ es) a =
    proceed-Harmless (resolve_conflict e a).0 (extend_log e >> append_entries es) _
      (resolve_conflict-Harmless e a)
      (λ d.
        proceed-Harmless (extend_log e d).0 (append_entries es) _ (extend_log-Harmless e d)
          (append_entries-Harmless es))

check_envelope-Guarded :
    (m : RaftMessage) (c : RaftCore) (e : Error) → check_envelope m c ≡ some e → Guarded e
check_envelope-Guarded m c e h = ground arith

check_proposal-Guarded :
    (id : Text) (payload : Bytes) (c : RaftCore) (e : Error)
    → check_proposal id payload c ≡ some e
    → Guarded e
check_proposal-Guarded id payload c e h = ground arith

module _ (b : RaftCore) where
  abbrev pub Kept : State → Type 0
  Kept s = Extends b s.core

  abbrev pub Thrown : Error → State → Type 0
  Thrown e s = Guarded e × Extends b s.core

  abbrev pub Anything : RaftMessage → Type 0
  Anything m = Unit

  append_local-Extends :
      (type : EntryType) (payload : Bytes) (id : Option Text) (s : State)
      → Kept s
      → Kept (append_local type payload id s)
  unfolding append_local
  append_local-Extends type payload id s x = push-Extends b s.core _ x refl

  set_commit-Extends :
      (i : ℕ) (s : State)
      → quorum_index s.core (last_log_index s.core - s.core.commit_index) ≡ some i
      → Kept s
      → Kept (set_commit (some i) s).1
  set_commit-Extends i s h x =
      let (lo, hi) = quorum_index-range s.core _ i h in
      commit-Extends b s.core i x (omega arith) (omega (arith, last_of b s.core x, x.log.ceiling))

  take_office-Extends : (s : State) → Kept s → Kept (take_office s)
  take_office-Extends s x =
      progress-Extends b s.core (take_office s).core x
        (record {
          complete = λ _. initial_progress_complete (last_log_index s.core + 1) (peers s.core);
          positive = initial_progress-positive (last_log_index s.core) (peers s.core);
        })
        refl refl refl refl refl refl

  -- A change of role that does not make a leader.
  demote-Extends :
      (s : State) (d : RaftCore)
      → d.role ≢ leader
      → d.progress ≡ s.core.progress
      → d.snapshot ≡ s.core.snapshot
      → d.entries ≡ s.core.entries
      → d.commit_index ≡ s.core.commit_index
      → d.applied_index ≡ s.core.applied_index
      → d.outstanding ≡ s.core.outstanding
      → d.ready_sequence ≡ s.core.ready_sequence
      → Kept s
      → Extends b d
  demote-Extends s d n p q e k a o z x =
      progress-Extends b s.core d x
        (record { complete = λ r. absurd (n r); positive = rw p x.progress.positive }) q e k a o z

  pub become_follower-Extends :
      (term : ℕ) (id : Option NodeId) (s : State) → Kept s → Kept (become_follower term id s)
  become_follower-Extends term id s x =
      progress-Extends b s.core (become_follower term id s).core x
        (record {
          complete = λ r. absurd (follows term id s r);
          positive = λ p q h. none_left term id s p q h;
        })
        (kept term id s).0 (kept term id s).1 (kept term id s).2 (kept term id s).3
        (kept term id s).4 (kept term id s).5
    where
      follows :
          (term : ℕ) (id : Option NodeId) (s : State)
          → (become_follower term id s).core.role ≢ leader
      follows term id s = unfold become_follower in ground arith

      none_left :
          (term : ℕ) (id : Option NodeId) (s : State) (p : NodeId) (q : PeerProgress)
          → get (become_follower term id s).core.progress p ≡ some q
          → 1 ≤ q.next_index
      none_left term id s p q h = unfold become_follower in ground arith

      kept :
          (term : ℕ) (id : Option NodeId) (s : State)
          → ((become_follower term id s).core.snapshot ≡ s.core.snapshot)
            × ((become_follower term id s).core.entries ≡ s.core.entries)
            × ((become_follower term id s).core.commit_index ≡ s.core.commit_index)
            × ((become_follower term id s).core.applied_index ≡ s.core.applied_index)
            × ((become_follower term id s).core.outstanding ≡ s.core.outstanding)
            × ((become_follower term id s).core.ready_sequence ≡ s.core.ready_sequence)
      kept term id s = unfold become_follower in ground arith

  add_vote-Extends : (from : NodeId) (s : State) → Kept s → Kept (add_vote from s)
  add_vote-Extends from s x = elim (Bool-cases (has from s.core.votes)) [
    | inl h ↦ rw h x
    | inr h ↦ rw h (progress-Extends b s.core _ x x.progress refl refl refl refl refl refl)
  ]

  append_all-After :
      (es : List LogEntry) (s : State)
      → Kept s
      → After Anything Kept Thrown (append_all es s).0 (append_all es s).1
  unfolding append_all
  append_all-After es s x =
      let start : Appending = record { core = s.core; truncate_from = none; appended = [] } in
      elim (Result-cases (append_entries es start).0) [
        | inl (_, h) ↦ rw (h, append_all) (append_entries-Extends b es start x)
        | inr (e, h) ↦
            rw (h, append_all)
              (
                subst Harmless h (append_entries-Harmless es start),
                append_entries-Extends b es start x,
              )
      ]

  learned :
      (n : ℕ) (s : State)
      → (learn_commit n s).core ≡ record s.core { commit_index = learned_commit n s.core }
  unfolding learn_commit
  learned n s = elim (Bool-cases (learned_commit n s.core == s.core.commit_index)) [
    | inl h ↦ rw h
    | inr h ↦ rw h
  ]

  learn_commit-Extends : (n : ℕ) (s : State) → Kept s → Kept (learn_commit n s)
  unfolding learn_commit
  learn_commit-Extends n s x = rw (learned n s) (
      commit-Extends b s.core (learned_commit n s.core) x
        (ground (arith, last_of b s.core x, x.log.ceiling))
        (ground (arith, last_of b s.core x, x.log.ceiling)))

  set_progress-Extends :
      (id : NodeId) (p q : PeerProgress) (s : State)
      → get s.core.progress id ≡ some p
      → 1 ≤ q.next_index
      → Kept s
      → Kept (set_progress id q s)
  set_progress-Extends id p q s h n x =
      progress-Extends b s.core (set_progress id q s).core x
        (record {
          complete =
              λ r k i. ground (arith, get-put s.core.progress id k q, x.progress.complete r k i);
          positive =
              λ k r i. ground (arith, get-put s.core.progress id k q, x.progress.positive k r);
        })
        refl refl refl refl refl refl

  pub Totality-Closed : Closed Anything Kept Thrown
  Totality-Closed = record {
    append_locally = λ type payload id s r x. append_local-Extends type payload id s x;
    send_append = λ peer p s r h x. x;
    commit = λ i s r h x. set_commit-Extends i s h x;
    take = λ s r q x. take_office-Extends s x;
    stands = λ s quiet r x.
        demote-Extends s (stand s).core (λ e. cc) refl refl refl refl refl refl refl x;
    send_vote_request = λ peer s r w x. x;
    follow = λ term id s quiet h new x. become_follower-Extends term id s x;
    grant = λ m s g quiet h x.
        demote-Extends s (cast_vote m.base.from s).core (λ e. cc) refl refl refl refl refl refl refl
          x;
    refuse = λ m s h x. x;
    count = λ m s g r t v x. add_vote-Extends m.base.from s x;
    respond = λ to success matched hint s x. x;
    append = λ m s g quiet f h x. append_all-After m.entries s x;
    learn = λ n s x. learn_commit-Extends n s x;
    progresses =
        λ m p s g h x. set_progress-Extends m.base.from p (acknowledged m p) s h (omega arith) x;
    backs_up =
        λ m p s g h x. set_progress-Extends m.base.from p (backed_up m p) s h (ground arith) x;
    missing = λ peer s r k h x. absurd (x.progress.complete r peer k h);
  }

-- A step on a sound object throws nothing but its guards, and leaves what `Extends` says.
pub record Sound (c : RaftCore) : Type 0 where
  pub log : LogOk c.snapshot c.entries c.commit_index c.applied_index
  pub progress : ProgressOk c.role (peers c) c.progress

pub Extends-refl : (c : RaftCore) → Sound c → Extends c c
Extends-refl c s = record {
  log = s.log;
  progress = s.progress;
  same_snapshot = refl;
  same_applied = refl;
  same_outstanding = refl;
  same_sequence = refl;
  commit_grows = omega arith;
  committed_kept = λ i h. refl;
}

pub Totality-Refuses : (c : RaftCore) → Sound c → Refuses (Anything c) (Kept c) (Thrown c) (begin c)
Totality-Refuses c s = record {
  rejected = λ m e h. (check_envelope-Guarded m c e h, Extends-refl c s);
  unproposed = λ id payload e h. (check_proposal-Guarded id payload c e h, Extends-refl c s);
}

pub assert_invariants-ok :
    (c : RaftCore)
    → LogOk c.snapshot c.entries c.commit_index c.applied_index
    → assert_invariants c ≡ ok tt
unfolding assert_invariants
assert_invariants-ok c l = ground (
  arith,
  contiguous_from-Contiguous (suc (boundary c.snapshot)) c.entries l.contiguous,
  last_index-Contiguous c.snapshot c.entries l.contiguous,
  l.floor,
  l.ceiling,
  l.done,
)
