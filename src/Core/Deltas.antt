-- ===== src/Core/Deltas.antt =====
-- Every step hands over effects that account for what it changed.
use node_raft_rsm.Base.{
  ℕ, ◌≤◌, ◌<◌, ◌≡◌, refl, sym, ◌∙◌, ap, ◌⊎◌, inl, inr, true, has, ltb, ◌==◌, Option, none, some,
  List, [], ◌∷◌, ◌++◌, subst, Exec, ◌>>◌, proceed, Result, ok, err, arith, Bool-cases, Option-cases,
  Result-cases,
}
use mathlib.Core.List.{append-nil}
use node_raft_rsm.Types.{
  NodeId, LogEntry, HardState, RaftMessage, RaftEvent, RaftReady, message, RequestVoteRequest,
}
use node_raft_rsm.Core.State.{
  RaftCore, State, Error, overwrite_committed, non_contiguous, hard_state,
}
use node_raft_rsm.Core.Ballots.{append_entries-SameVotes}
use node_raft_rsm.Core.Leader.{append_local, set_commit, take_office}
use node_raft_rsm.Core.Handlers.{
  grants, stand, cast_vote, become_follower, Appending, resolve_conflict, extend_log,
  append_entries, append_all, learned_commit, learn_commit, set_progress, acknowledged, backed_up,
  add_vote, addressed,
}
use node_raft_rsm.Core.Step.{
  dispatch, begin, make_ready, nothing_to_do, step_beside, step, conclude,
}
use node_raft_rsm.Core.Closure.{Closed, After, Quiet, dispatch_Done}
use node_raft_rsm.Core.Sound.{Extends, append_entries-Extends}
use node_raft_rsm.Core.Totality.{
  Totality-Closed, become_follower-Extends, Sound, Extends-refl, assert_invariants-ok,
}
use node_raft_rsm.Core.Accounts.{
  cut, Rising, Ordered, Traced, append_entries-Traced, Accounts, Whole, Interrupted, Broken,
  append_local-Accounts, plain-Accounts, noted-Accounts,
}

-- The errors of the loop over the entries.
abbrev Stops : Result Error Unit → Type 0
Stops (ok _) = Unit {0}
Stops (err e) = (e ≡ overwrite_committed) ⊎ (e ≡ non_contiguous)

resolve_conflict-Stops : (e : LogEntry) (s : Appending) → Stops (resolve_conflict e s).0
unfolding resolve_conflict
resolve_conflict-Stops e s = ground arith

extend_log-Stops : (e : LogEntry) (s : Appending) → Stops (extend_log e s).0
unfolding extend_log
extend_log-Stops e s = ground arith

proceed-Stops :
    (r : Result Error Unit) (k : Exec Error Appending Unit) (s : Appending)
    → Stops r
    → ((t : Appending) → Stops (k t).0)
    → Stops (proceed r (λ _. k) s).0
proceed-Stops (ok _) k s h g = g s
proceed-Stops (err e) k s h g = h

append_entries-Stops : (es : List LogEntry) (s : Appending) → Stops (append_entries es s).0
unfolding append_entries
append_entries-Stops [] s = tt
append_entries-Stops (e ∷ es) s =
    proceed-Stops (resolve_conflict e s).0 (extend_log e >> append_entries es) _
      (resolve_conflict-Stops e s)
      (λ t.
        proceed-Stops (extend_log e t).0 (append_entries es) _ (extend_log-Stops e t)
          (append_entries-Stops es))

append_entries-error :
    (es : List LogEntry) (s : Appending) (e : Error)
    → (append_entries es s).0 ≡ err e
    → (e ≡ overwrite_committed) ⊎ (e ≡ non_contiguous)
append_entries-error es s e h = subst Stops h (append_entries-Stops es s)

module _ (b : RaftCore) where
  stand-Accounts : (s : State) → Extends b (stand s).core → Whole b s → Whole b (stand s)
  stand-Accounts s x a =
      noted-Accounts b s (stand s) x (omega (arith, a.term_grows))
        (λ v e w. absurd (omega (arith, a.term_grows))) refl refl refl refl refl a

  become_follower-Accounts :
      (term : ℕ) (id : Option NodeId) (s : State)
      → Extends b (become_follower term id s).core
      → Whole b s
      → Whole b (become_follower term id s)
  unfolding become_follower
  become_follower-Accounts term id s x a = elim (Bool-cases (ltb s.core.current_term term)) [
    | inl e ↦ rw e (
        noted-Accounts b s _ (rw e at x) (ground (arith, a.term_grows))
          (λ v h w. absurd (ground (arith, a.term_grows))) refl refl refl refl refl a)
    | inr e ↦ rw e (plain-Accounts b s _ (rw e at x) refl refl refl refl refl refl a)
  ]

  cast_vote-Accounts :
      (m : RequestVoteRequest) (s : State)
      → grants m s.core ≡ true
      → Extends b (cast_vote m.base.from s).core
      → Whole b s
      → Whole b (cast_vote m.base.from s)
  cast_vote-Accounts m s g x a =
      noted-Accounts b s (cast_vote m.base.from s) x a.term_grows
        (λ v h w. ground (arith, a.vote_kept v h w)) refl refl refl refl refl a

  same_commit :
      (n : ℕ) (c : RaftCore)
      → (learned_commit n c == c.commit_index) ≡ true
      → hard_state (record c { commit_index = learned_commit n c }) ≡ hard_state c
  same_commit n c e = ground arith

  learn_commit-Accounts :
      (n : ℕ) (s : State)
      → Extends b (learn_commit n s).core
      → Whole b s
      → Whole b (learn_commit n s)
  unfolding learn_commit
  learn_commit-Accounts n s x a =
      elim (Bool-cases (learned_commit n s.core == s.core.commit_index)) [
        | inl e ↦
            rw e
              (plain-Accounts b s _ (rw e at x) (same_commit n s.core e) refl refl refl refl refl a)
        | inr e ↦
            rw e
              (noted-Accounts b s _ (rw e at x) a.term_grows a.vote_kept refl refl refl refl refl a)
      ]

  add_vote-Accounts :
      (from : NodeId) (s : State)
      → Extends b (add_vote from s).core
      → Whole b s
      → Whole b (add_vote from s)
  add_vote-Accounts from s x a = elim (Bool-cases (has from s.core.votes)) [
    | inl h ↦ rw h a
    | inr h ↦ rw h (plain-Accounts b s _ (rw h at x) refl refl refl refl refl refl a)
  ]

  -- What the loop leaves, when its variables have gone to the effects.
  abbrev traced : State → Appending → State
  traced s r = record {
    core = r.core;
    effects = record s.effects {
      truncate_from = elim r.truncate_from [ none ↦ s.effects.truncate_from | some i ↦ some i ];
      entries = s.effects.entries ++ r.appended;
    };
  }

  traced_log :
      (s : State) (r : Appending)
      → Quiet s
      → s.core.entries ≡ cut s.effects.truncate_from b.entries ++ s.effects.entries
      → r.core.entries ≡ cut r.truncate_from s.core.entries ++ r.appended
      → r.core.entries
        ≡ cut (traced s r).effects.truncate_from b.entries ++ (s.effects.entries ++ r.appended)
  traced_log s r (_, no_cut, no_new) logged split =
      let whole : s.core.entries ≡ b.entries =
        logged ∙ (rw (no_cut, no_new) (append-nil b.entries)) in
      elim (Option-cases r.truncate_from) [
        | inl n ↦ rw (n, no_cut, no_new) (rw (n, whole) at split)
        | inr (k, n) ↦ rw (n, no_new) (rw (n, whole) at split)
      ]

  traced_effects :
      (s : State) (r : Appending)
      → Quiet s
      → Whole b s
      → Traced b (hard_state s.core) s.core.entries r []
      → Whole b (traced s r)
  traced_effects s r quiet a t =
      let same_term = ap (λ (z : HardState). z.current_term) t.same_hard in
      record {
        kept = t.kept;
        term_grows = omega (arith, a.term_grows, same_term);
        vote_kept = λ v e w.
            ap (λ (z : HardState). z.voted_for) t.same_hard ∙ a.vote_kept v (sym same_term ∙ e) w;
        synced = rw t.same_hard a.synced;
        logged = traced_log s r quiet a.logged t.split;
        beyond = λ k w. elim (Option-cases r.truncate_from) [
          | inl n ↦ absurd (cc (quiet.1, rw n at w))
          | inr (i, n) ↦ t.beyond k (n ∙ (rw n at w))
        ];
        no_snapshot = a.no_snapshot;
      }

  append_entries-Interrupted :
      (es : List LogEntry) (s : Appending) (e : Error)
      → (append_entries es s).0 ≡ err e
      → Extends b s.core
      → b.current_term ≤ s.core.current_term
      → ((v : NodeId)
          → s.core.current_term ≡ b.current_term
          → b.voted_for ≡ some v
          → s.core.voted_for ≡ some v)
      → Interrupted b e (append_entries es s).1.core
  append_entries-Interrupted es s e h extends grows kept =
      let same_votes = append_entries-SameVotes es s in
      record {
        error = append_entries-error es s e h;
        kept = append_entries-Extends b es s extends;
        term_grows = omega (arith, same_votes.term, grows);
        vote_kept = λ v t w. same_votes.vote ∙ kept v (sym same_votes.term ∙ t) w;
      }

  append_all-Accounts :
      (es : List LogEntry) (s : State)
      → Rising es
      → Quiet s
      → Whole b s
      → After Ordered (Whole b) (Broken b) (append_all es s).0 (append_all es s).1
  unfolding append_all
  append_all-Accounts es s rising quiet a =
      let start : Appending = record { core = s.core; truncate_from = none; appended = [] } in
      elim (Result-cases (append_entries es start).0) [
        | inr (e, h) ↦
            rw (h, append_all)
              (inr (
                append_entries-Interrupted es start e h a.kept (omega (arith, a.term_grows))
                  a.vote_kept))
        | inl (u, h) ↦
            rw (h, append_all)
              (traced_effects s (append_entries es start).1 quiet a (
                append_entries-Traced b (hard_state s.core) s.core.entries es start
                  (record {
                    kept = a.kept;
                    same_hard = refl;
                    split = sym (append-nil s.core.entries);
                    beyond = λ k w. cc;
                    phase = inl (refl, refl, rising);
                  })
                  h))
      ]

  Accounts-Closed : Closed Ordered (Whole b) (Broken b)
  unfolding append_local
  Accounts-Closed =
      let base = Totality-Closed b in
      record {
        append_locally = append_local-Accounts b;
        send_append = λ peer p s r h a. plain-Accounts b s _ a.kept refl refl refl refl refl refl a;
        commit = λ i s r h a.
            noted-Accounts b s (set_commit (some i) s).1 (base.commit i s r h a.kept) a.term_grows
              a.vote_kept refl refl refl refl refl a;
        take = λ s r q a.
            plain-Accounts b s (take_office s) (base.take s r q a.kept) refl refl refl refl refl
              refl a;
        stands = λ s quiet r a. stand-Accounts s (base.stands s quiet r a.kept) a;
        send_vote_request =
            λ peer s r w a. plain-Accounts b s _ a.kept refl refl refl refl refl refl a;
        follow = λ term id s quiet h new a.
            become_follower-Accounts term id s (become_follower-Extends b term id s a.kept) a;
        grant = λ m s k quiet g a.
            plain-Accounts b (cast_vote m.base.from s) _ (base.grant m s tt quiet g a.kept) refl
              refl refl refl refl refl
              (cast_vote-Accounts m s g (base.grant m s tt quiet g a.kept) a);
        refuse = λ m s g a. plain-Accounts b s _ a.kept refl refl refl refl refl refl a;
        count = λ m s k r t v a. add_vote-Accounts m.base.from s (base.count m s tt r t v a.kept) a;
        respond = λ to success matched hint s a.
            plain-Accounts b s _ a.kept refl refl refl refl refl refl a;
        append = λ m s rising quiet f h a. append_all-Accounts m.entries s rising quiet a;
        learn = λ n s a. learn_commit-Accounts n s (base.learn n s a.kept) a;
        progresses = λ m p s k h a.
            plain-Accounts b s (set_progress m.base.from (acknowledged m p) s)
              (base.progresses m p s tt h a.kept) refl refl refl refl refl refl a;
        backs_up = λ m p s k h a.
            plain-Accounts b s (set_progress m.base.from (backed_up m p) s)
              (base.backs_up m p s tt h a.kept) refl refl refl refl refl refl a;
        missing = λ peer s r k h a. absurd (a.kept.progress.complete r peer k h);
      }

-- What a Ready says of the change from the object `b` to `c`.
pub record Delta (b c : RaftCore) (r : RaftReady) : Type 0 where
  pub term_grows : b.current_term ≤ c.current_term
  pub commit_grows : b.commit_index ≤ c.commit_index
  pub vote_kept :
      (v : NodeId) → c.current_term ≡ b.current_term → b.voted_for ≡ some v → c.voted_for ≡ some v
  pub synced :
      ((r.hard_state ≡ none) × (hard_state c ≡ hard_state b)) ⊎ (r.hard_state ≡ some (hard_state c))
  pub logged : c.entries ≡ cut r.truncate_from b.entries ++ r.unstable_entries
  pub beyond : (k : ℕ) → r.truncate_from ≡ some k → b.commit_index < k
  pub no_snapshot : r.snapshot ≡ none

-- A step that returns hands over the whole change; one that has nothing to hand over made none.
abbrev pub Told : RaftCore → Result Error (Option RaftReady) × RaftCore → Type 0
Told b (ok (some r), c) = Delta b c r
Told b (ok none, c) = (hard_state c ≡ hard_state b) × (c.entries ≡ b.entries)
Told b (err e, c) = (c ≡ b) ⊎ Interrupted b e c

nothing-parts :
    (s : State)
    → nothing_to_do s ≡ true
    → (s.effects.hard_state ≡ none) × (s.effects.truncate_from ≡ none) × (s.effects.entries ≡ [])
nothing-parts s h = (ground arith, ground arith, ground arith)

nothing-told :
    (b : RaftCore) (s : State)
    → nothing_to_do s ≡ true
    → Accounts b s
    → (hard_state s.core ≡ hard_state b) × (s.core.entries ≡ b.entries)
nothing-told b s h a =
    let (no_hard, no_cut, no_new) = nothing-parts s h in
    (
      elim a.synced [ inl p ↦ p.1 | inr e ↦ absurd (cc (no_hard, e)) ],
      a.logged ∙ (rw (no_cut, no_new) (append-nil b.entries)),
    )

make_ready-Told :
    (b : RaftCore) (s : State) → Accounts b s → Told b (ok (make_ready s).0, (make_ready s).1)
unfolding make_ready
make_ready-Told b s a = elim (Bool-cases (nothing_to_do s)) [
  | inl h ↦ rw h (nothing-told b s h a)
  | inr h ↦ rw h (record {
    term_grows = a.term_grows;
    commit_grows = a.kept.commit_grows;
    vote_kept = a.vote_kept;
    synced = a.synced;
    logged = a.logged;
    beyond = a.beyond;
    no_snapshot = a.no_snapshot;
  })
]

conclude-Told :
    (b : RaftCore) (r : Result Error Unit) (s : State)
    → After Ordered (Whole b) (Broken b) r s
    → Told b (conclude r s)
conclude-Told b (ok _) s a = rw (assert_invariants-ok s.core a.kept.log) (make_ready-Told b s a)
conclude-Told b (err e) s a = a

begin-Accounts : (b : RaftCore) → Sound b → Accounts b (begin b)
begin-Accounts b s = record {
  kept = Extends-refl b s;
  term_grows = omega arith;
  vote_kept = λ v e h. h;
  synced = inl (refl, refl);
  logged = sym (append-nil b.entries);
  beyond = λ k h. cc;
  no_snapshot = refl;
}

step_beside-Told :
    (o : Option RaftReady) (event : RaftEvent) (b : RaftCore)
    → ((m : RaftMessage) → event ≡ message m → addressed m b ≡ true → Ordered m)
    → Sound b
    → Told b (step_beside o event b)
unfolding step_beside
step_beside-Told (some r) event b g s = inl refl
step_beside-Told none event b g s =
    conclude-Told b (dispatch event (begin b)).0 (dispatch event (begin b)).1 (
      dispatch_Done Ordered (Whole b) (Broken b) (Accounts-Closed b) event (begin b)
        (record { rejected = λ m e h. inl refl; unproposed = λ id payload e h. inl refl }) g
        (refl, refl, refl) (begin-Accounts b s))

-- On a sound object, where the entries of a received message come in the order of their indexes. If
-- the step returns a Ready, the Ready accounts for it: its hard state is the new one, or absent and the
-- hard state unchanged; the old log, cut above the old commit index and extended by the Ready's
-- entries, is the new log; term and commit index do not fall, nor does a vote change in a term. If it
-- returns without a Ready, hard state and log are unchanged. If it throws, the object is as it was,
-- save where the error is that entries overwrite a committed one or leave a gap: then term and log may
-- have changed with no Ready to tell, but the object is sound, the entries committed before are kept,
-- term and commit index have not fallen, nor has a vote changed in a term.
pub step-Told :
    (event : RaftEvent) (b : RaftCore)
    → ((m : RaftMessage) → event ≡ message m → addressed m b ≡ true → Ordered m)
    → Sound b
    → Told b (step event b)
unfolding step
step-Told event b = step_beside-Told b.outstanding event b
