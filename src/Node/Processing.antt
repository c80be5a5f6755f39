-- ===== src/Node/Processing.antt =====
-- A node that processes an event: its core, its storage and its state machine stay together.
use node_raft_rsm.Base.{
  ◌≤◌, ◌≡◌, refl, sym, ◌∙◌, ap, subst, inl, inr, true, Text, Bytes, Option, none, some, List, ◌++◌,
  Result, ok, err, proceed, arith, Bool-cases, ◌==◌,
}
use node_raft_rsm.Types.{LogEntry, RaftReady, RaftEvent, RaftMessage, message, PersistBatch}
use node_raft_rsm.Core.State.{RaftCore, State, Error, boundary}
use node_raft_rsm.Core.Handlers.{addressed}
use node_raft_rsm.Core.Step.{
  step, step_beside, advance, advance_beside, acknowledge, conclude, publish, make_ready,
  nothing_to_do, dispatch, begin, committed_entries, assert_invariants,
}
use node_raft_rsm.Core.Closure.{After, dispatch_Done}
use node_raft_rsm.Core.Totality.{
  Sound, Anything, Kept, Thrown, Totality-Closed, Totality-Refuses, Extends-refl,
}
use node_raft_rsm.Core.Ready.{
  Pending, Stepped, step-Stepped, committed_entries-Contiguous, advance-applies,
}
use node_raft_rsm.Core.Accounts.{Ordered}
use node_raft_rsm.Storage.{persist}
use node_raft_rsm.Storage.Refinement.{batch_of, image, Mirrored, step-persist}
use node_raft_rsm.Node.{
  NodeError, core_failed, Node, sends, persisted, finish, advanced, apply_entries, process_ready,
  stepped, process,
}
use node_raft_rsm.Node.Applying.{held, replay, Applied, apply_entries-Applied}

-- A Ready that a step returns is outstanding; without one, what was outstanding still is.
abbrev Handed : RaftCore → Result Error (Option RaftReady) × RaftCore → Type 0
Handed b (ok (some r), d) = d.outstanding ≡ some r
Handed b (ok none, d) = d.outstanding ≡ b.outstanding
Handed b (err e, d) = Unit {0}

make_ready-Handed :
    (b : RaftCore) (s : State)
    → s.core.outstanding ≡ b.outstanding
    → Handed b (ok (make_ready s).0, (make_ready s).1)
unfolding make_ready
make_ready-Handed b s x = elim (Bool-cases (nothing_to_do s)) [ inl g ↦ rw g x | inr g ↦ rw g refl ]

publish-Handed :
    (b : RaftCore) (r : Result Error Unit) (s : State)
    → s.core.outstanding ≡ b.outstanding
    → Handed b (publish r s)
publish-Handed b (ok _) s x = make_ready-Handed b s x
publish-Handed b (err e) s x = tt

conclude-Handed :
    (b : RaftCore) (r : Result Error Unit) (s : State)
    → After (Anything b) (Kept b) (Thrown b) r s
    → Handed b (conclude r s)
conclude-Handed b (ok _) s x = publish-Handed b (assert_invariants s.core) s x.same_outstanding
conclude-Handed b (err e) s x = tt

step_beside-Handed :
    (o : Option RaftReady) (event : RaftEvent) (c : RaftCore)
    → Sound c
    → Handed c (step_beside o event c)
unfolding step_beside
step_beside-Handed (some r) event c s = tt
step_beside-Handed none event c s =
    conclude-Handed c (dispatch event (begin c)).0 (dispatch event (begin c)).1 (
      dispatch_Done (Anything c) (Kept c) (Thrown c) (Totality-Closed c) event (begin c)
        (Totality-Refuses c s) (λ m e a. tt) (refl, refl, refl) (Extends-refl c s))

step-Handed : (event : RaftEvent) (c : RaftCore) → Sound c → Handed c (step event c)
unfolding step
step-Handed event c = step_beside-Handed c.outstanding event c

same_id : (r : RaftReady) → (r.id == r.id) ≡ true
same_id r = ground arith

-- What an advance changes.
advance-acknowledge :
    (c : RaftCore) (r : RaftReady) → c.outstanding ≡ some r → (advance r.id c).1 ≡ acknowledge r c
unfolding advance advance_beside
advance-acknowledge c r h = rw h (rw (same_id r) refl)

still_floor :
    (b d : RaftCore)
    → Stepped b d
    → boundary b.snapshot ≤ b.applied_index
    → boundary d.snapshot ≤ d.applied_index
still_floor b d s f = omega (arith, ap boundary s.same_snapshot, s.same_applied, f)

module _ {Command Machine Value : Type 0} (decode : Bytes → Option Command)
    (run : Command → LogEntry → Machine → Option (Value × Machine)) (digest : Bytes → Text) where
  -- Between two events: the core is sound and idle, and the storage holds its state.
  pub record Synced (n : Node Machine Value) : Type 0 where
    pub sound : Sound n.core
    pub idle : n.core.outstanding ≡ none
    pub floor : boundary n.core.snapshot ≤ n.core.applied_index
    pub history : List PersistBatch
    pub stored : n.storage ≡ image n.core history

  -- The node `n` has processed the Ready `r`, and its state machine is `q`.
  pub record Served (n : Node Machine Value) (r : RaftReady) (d : RaftCore) (q : Machine)
      (out : Result NodeError Unit × Node Machine Value) : Type 0 where
    pub fine : out.0 ≡ ok tt
    pub synced : Synced out.1
    pub reached : out.1.machine ≡ q
    pub sent : out.1.sent ≡ n.sent ++ r.outbound_messages
    pub all_applied : out.1.core.applied_index ≡ d.commit_index

  advanced-Served :
      (n t : Node Machine Value) (r : RaftReady) (d c : RaftCore) (q : Machine)
      (x : Result Error Unit)
      → Applied decode run digest
          (sends decode run digest r.outbound_messages n)
          d
          d.commit_index
          q
          (ok tt, t)
      → x ≡ ok tt
      → Sound c
      → c.applied_index ≡ d.commit_index
      → c.outstanding ≡ none
      → c ≡ acknowledge r d
      → boundary d.snapshot ≤ d.commit_index
      → Served n r d q (advanced decode run digest r.id t (x, c))
  advanced-Served n t r d c q (err e) a h s applied idle same low = absurd cc
  advanced-Served n t r d c q (ok _) a h s applied idle same low =
      let same_snapshot : c.snapshot ≡ d.snapshot = ap (λ k. k.snapshot) same in
      record {
        fine = refl;
        synced = record {
          sound = s;
          idle = idle;
          floor =
              subst (λ k. k ≤ c.applied_index) (ap boundary (sym same_snapshot))
                (omega (arith, applied, low));
          history = a.history;
          stored =
              a.stored
              ∙ ap (λ k. held d k a.history) (sym applied ∙ ap (λ k. k.applied_index) same)
              ∙ ap (λ k. image k a.history) (sym same);
        };
        reached = a.reached;
        sent = a.same_sent;
        all_applied = applied;
      }

  finish-Served :
      (n : Node Machine Value) (r : RaftReady) (d : RaftCore) (q : Machine)
      (out : Result NodeError Unit × Node Machine Value) (h : List PersistBatch)
      → Sound d
      → Pending d
      → boundary d.snapshot ≤ d.applied_index
      → d.outstanding ≡ some r
      → Applied decode run digest
          (sends decode run digest r.outbound_messages n)
          d
          d.commit_index
          q
          out
      → n.core ≡ d
      → Served n r d q (proceed out.0 (λ _. finish decode run digest r.id) out.1)
  finish-Served n r d q (err e, t) h s p f o a same = absurd (cc a.fine)
  finish-Served n r d q (ok _, t) h s p f o a same =
      let (fine, sound, applied, idle) = advance-applies d r s p f o in
      let here : t.core ≡ d = a.same_core ∙ same in
      subst (λ k. Served n r d q (advanced decode run digest r.id t (advance r.id k))) (sym here)
        (advanced-Served n t r d (advance r.id d).1 q (advance r.id d).0
          (record {
            fine = refl;
            same_core = a.same_core;
            reached = a.reached;
            same_sent = a.same_sent;
            history = a.history;
            stored = a.stored;
          })
          fine sound applied idle (advance-acknowledge d r o) (omega (arith, f, s.log.done)))

  -- What processing an event does, by what the step of the core gives.
  pub record Idled (n : Node Machine Value) (d : RaftCore)
      (out : Result NodeError Unit × Node Machine Value) : Type 0 where
    pub fine : out.0 ≡ ok tt
    pub synced : Synced out.1
    pub same_machine : out.1.machine ≡ n.machine
    pub same_sent : out.1.sent ≡ n.sent

  abbrev pub Processed :
      Node Machine Value
      → Result Error (Option RaftReady) × RaftCore
      → Machine
      → Result NodeError Unit × Node Machine Value
      → Type 0
  Processed n (ok (some r), d) q out = Served n r d q out
  Processed n (ok none, d) q out = Idled n d out
  Processed n (err e, d) q out = (out.0 ≡ err (core_failed e)) × (out.1.storage ≡ n.storage)

  process_ready-Served :
      (n : Node Machine Value) (r : RaftReady) (d : RaftCore) (q : Machine) (h : List PersistBatch)
      → Sound d
      → Pending d
      → boundary d.snapshot ≤ d.applied_index
      → d.outstanding ≡ some r
      → persist (batch_of r) n.storage ≡ (ok tt, image d h)
      → replay decode run digest (committed_entries d) n.machine ≡ some q
      → n.core ≡ d
      → Served n r d q (process_ready decode run digest r n)
  unfolding process_ready
  process_ready-Served n r d q h s p f o w replayed same =
      let (run_on, count) = committed_entries-Contiguous d s f in
      let m : Node Machine Value =
        sends decode run digest r.outbound_messages (record n { storage = image d h }) in
      let a =
        apply_entries-Applied decode run digest (committed_entries d) m d d.applied_index h q refl
          run_on (omega (arith, count)) replayed in
      subst (λ x. Served n r d q (persisted decode run digest r (x.0, record n { storage = x.1 })))
        (sym w)
        (subst
          (λ es. Served n r d q (
            proceed (apply_entries decode run digest es m).0 (λ _. finish decode run digest r.id)
              (apply_entries decode run digest es m).1))
          (sym (p r o))
          (finish-Served n r d q (apply_entries decode run digest (committed_entries d) m) h s p f o
            (record {
              fine = a.fine;
              same_core = a.same_core;
              reached = a.reached;
              same_sent = a.same_sent;
              history = a.history;
              stored = a.stored ∙ ap (λ k. held d k a.history) count;
            })
            same))

  processed :
      (n : Node Machine Value) (q : Machine) (out : Result Error (Option RaftReady)) (d : RaftCore)
      → (y : Synced n) → Stepped n.core d
      → Handed n.core (out, d)
      → Mirrored n.core y.history (out, d)
      → replay decode run digest (committed_entries d) n.machine ≡ some q
      → Processed n (out, d) q (stepped decode run digest (out, d) n)
  processed n q (err e) d y s o w replayed = (refl, refl)
  processed n q (ok none) d y s o w replayed = record {
    fine = refl;
    synced = record {
      sound = s.sound;
      idle = o ∙ y.idle;
      floor = still_floor n.core d s y.floor;
      history = y.history;
      stored = y.stored ∙ w;
    };
    same_machine = refl;
    same_sent = refl;
  }
  processed n q (ok (some r)) d y s o w replayed =
      let served =
        process_ready-Served (record n { core = d }) r d q _ s.sound s.pending
          (still_floor n.core d s y.floor) o (ap (persist (batch_of r)) y.stored ∙ w) replayed
          refl in
      record {
        fine = served.fine;
        synced = served.synced;
        reached = served.reached;
        sent = served.sent;
        all_applied = served.all_applied;
      }

  -- A node whose core is sound and idle, whose snapshot, if it has one, has been applied, and whose
  -- storage holds the core's state, open and with no injected failure, processes an event, whose
  -- message, if it is one, has its entries in the order of their indexes; the state machine can replay
  -- what the step of the core makes ready to apply. If the step throws, the node throws that error and
  -- the storage is untouched. If not, the node throws nothing, and core and storage are again as
  -- before. With a Ready its messages have been sent, everything committed is applied, and the state
  -- machine is the replayed one; without a Ready, machine and messages are unchanged.
  pub process-Processed :
      (event : RaftEvent) (n : Node Machine Value) (q : Machine)
      → ((m : RaftMessage) → event ≡ message m → addressed m n.core ≡ true → Ordered m)
      → Synced n
      → replay decode run digest (committed_entries (step event n.core).1) n.machine ≡ some q
      → Processed n (step event n.core) q (process decode run digest event n)
  unfolding process
  process-Processed event n q g y replayed =
      let p : Pending n.core = λ r e. absurd (cc (y.idle, e)) in
      processed n q (step event n.core).0 (step event n.core).1 y
        (step-Stepped event n.core y.sound p).1 (step-Handed event n.core y.sound)
        (step-persist event n.core y.history g y.sound p) replayed
