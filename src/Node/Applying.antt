-- ===== src/Node/Applying.antt =====
-- A node that processes an event: its storage and its state machine follow its core.
use node_raft_rsm.Base.{
  ℕ, suc, ◌+◌, ◌≤◌, ◌≡◌, refl, sym, ◌∙◌, ap, subst, Text, Bytes, get, length, Option, none, some,
  List, [], ◌∷◌, ◌++◌, Result, ok, err, proceed, arith,
}
use node_raft_rsm.Types.{EntryType, command, configuration, noop, LogEntry, PersistBatch}
use node_raft_rsm.Core.State.{RaftCore}
use node_raft_rsm.Core.Log.{Contiguous}
use node_raft_rsm.Storage.{
  MemoryRaftStorage, next_entries, truncated, extended, write_hard_state, write_applied,
  write_batch, persist,
}
use node_raft_rsm.Storage.Refinement.{image}
use node_raft_rsm.Node.{
  NodeError, applied_batch, Node, write, answered, completes, after_write, after_run, ran,
  apply_command, raw_write, apply_kind, apply_entry, apply_entries,
}

-- The storage of a node whose core has applied less than what is stored as applied.
abbrev pub held : RaftCore → ℕ → List PersistBatch → MemoryRaftStorage
held c i h = record (image c h) { applied_index = i }

pub persist-held :
    (c : RaftCore) (i k : ℕ) (h : List PersistBatch)
    → i ≤ k
    → k ≤ c.commit_index
    → persist (applied_batch k) (held c i h) ≡ (ok tt, held c k (h ++ applied_batch k ∷ []))
unfolding persist write_batch write_applied write_hard_state next_entries truncated extended
persist-held c i k h l u = ground arith

module _ {Command Machine Value : Type 0} (decode : Bytes → Option Command)
    (run : Command → LogEntry → Machine → Option (Value × Machine)) (digest : Bytes → Text) where
  abbrev pub machine_of : Option (Value × Machine) → Option Machine
  machine_of none = none
  machine_of (some (value, m)) = some m

  abbrev pub effect_command : LogEntry → Option Text → Machine → Option Machine
  effect_command e none m = none
  effect_command e (some id) m = machine_of (ran decode run digest e (decode e.payload) m)

  -- What an entry does to the state machine: a command needs an id, bytes that decode and a run that
  -- does not throw; the other entries do nothing.
  abbrev pub effect : EntryType → LogEntry → Machine → Option Machine
  effect command e m = effect_command e e.command_id m
  effect configuration e m = some m
  effect noop e m = some m

  abbrev pub replay_on : (Machine → Option Machine) → Option Machine → Option Machine
  replay_on f none = none
  replay_on f (some m) = f m

  -- The state machine after the entries, one after the other.
  abbrev pub replay : List LogEntry → Machine → Option Machine
  replay [] m = some m
  replay (e ∷ es) m = replay_on (replay es) (effect e.type e m)

  -- The node has applied up to the index i, with the state machine `m`, and nothing else of its core,
  -- its storage and its messages has changed.
  abbrev Reached :
      Node Machine Value
      → RaftCore
      → ℕ
      → Machine
      → Result NodeError Unit × Node Machine Value
      → Type 0
  Reached n c i m (r, t) =
      (r ≡ ok tt)
      × (t.core ≡ n.core)
      × (t.machine ≡ m)
      × (t.sent ≡ n.sent)
      × ((h : List PersistBatch) × (t.storage ≡ held c i h))

  -- Answering a pending command changes none of these.
  answered-keeps :
      (id : Text) (value : Value) (o : Option Text) (n : Node Machine Value)
      → ((answered decode run digest id value o n).core ≡ n.core)
        × ((answered decode run digest id value o n).machine ≡ n.machine)
        × ((answered decode run digest id value o n).sent ≡ n.sent)
        × ((answered decode run digest id value o n).storage ≡ n.storage)
  answered-keeps id value none n = (refl, refl, refl, refl)
  answered-keeps id value (some p) n = (refl, refl, refl, refl)

  module _ (n : Node Machine Value) (c : RaftCore) (i : ℕ) (h : List PersistBatch)
      (at : n.storage ≡ held c i h) (e : LogEntry) (l : i ≤ e.index)
      (u : e.index ≤ c.commit_index) where
    wrote :
        persist (applied_batch e.index) n.storage
        ≡ (ok tt, held c e.index (h ++ applied_batch e.index ∷ []))
    wrote = ap (persist (applied_batch e.index)) at ∙ persist-held c i e.index h l u

    raw_write-Reached :
        Reached n c e.index n.machine
          (raw_write decode run digest (write decode run digest (applied_batch e.index) n))
    raw_write-Reached =
        subst
          (λ r.
            Reached n c e.index n.machine
              (raw_write decode run digest (r.0, record n { storage = r.1 })))
          (sym wrote) (refl, refl, refl, refl, (_, refl))

    completes-Reached :
        (id : Text) (value : Value) (k m : Machine)
        → k ≡ m
        → Reached n c e.index m (
          ok tt,
          completes decode run digest e id value (record n {
            machine = k;
            storage = held c e.index (h ++ applied_batch e.index ∷ []);
          }),
        )
    completes-Reached id value k m q =
        let (core, machine, sent, storage) =
          answered-keeps id value (get n.pending id) (record n {
            machine = k;
            storage = held c e.index (h ++ applied_batch e.index ∷ []);
          }) in
        (refl, core, machine ∙ q, sent, (_, storage))

    -- A command that runs and whose index is stored.
    after_run-Reached :
        (id : Text) (o : Option (Value × Machine)) (m : Machine)
        → machine_of o ≡ some m
        → Reached n c e.index m (after_run decode run digest e id o n)
    after_run-Reached id none m r = absurd cc
    after_run-Reached id (some (value, k)) m r =
        subst
          (λ x. Reached n c e.index m (
            after_write decode run digest e id value
              (x.0, record n { machine = k; storage = x.1 })))
          (sym wrote) (completes-Reached id value k m (cc r))

    apply_command-Reached :
        (o : Option Text) (m : Machine)
        → effect_command e o n.machine ≡ some m
        → Reached n c e.index m (apply_command decode run digest e o n)
    apply_command-Reached none m r = absurd cc
    apply_command-Reached (some id) m r = after_run-Reached id _ m r

    apply_kind-Reached :
        (kind : EntryType) (m : Machine)
        → effect kind e n.machine ≡ some m
        → Reached n c e.index m (apply_kind decode run digest kind e n)
    apply_kind-Reached command m r = apply_command-Reached e.command_id m r
    apply_kind-Reached configuration m r =
        subst (λ k. Reached n c e.index k (apply_kind decode run digest configuration e n)) (cc r)
          raw_write-Reached
    apply_kind-Reached noop m r =
        subst (λ k. Reached n c e.index k (apply_kind decode run digest noop e n)) (cc r)
          raw_write-Reached

  -- After the first entries, the others.
  then-Reached :
      (n : Node Machine Value) (c : RaftCore) (i k : ℕ) (m q : Machine) (es : List LogEntry)
      (out : Result NodeError Unit × Node Machine Value)
      → Reached n c i m out
      → ((t : Node Machine Value) (h : List PersistBatch)
          → t.storage ≡ held c i h
          → t.machine ≡ m
          → Reached t c k q (apply_entries decode run digest es t))
      → Reached n c k q (proceed out.0 (λ _. apply_entries decode run digest es) out.1)
  then-Reached n c i k m q es (err x, t) a rest = absurd (cc a.0)
  then-Reached n c i k m q es (ok _, t) (_, core, machine, sent, (h, storage)) rest =
      let (fine, core', machine', sent', storage') = rest t h storage machine in
      (fine, core' ∙ core, machine', sent' ∙ sent, storage')

  pub replay-split :
      (f : Machine → Option Machine) (o : Option Machine) (q : Machine)
      → replay_on f o ≡ some q
      → (m : Machine) × (o ≡ some m) × (f m ≡ some q)
  replay-split f none q h = absurd cc
  replay-split f (some m) q h = (m, refl, h)

  apply_entries-Reached :
      (es : List LogEntry) (n : Node Machine Value) (c : RaftCore) (i : ℕ) (h : List PersistBatch)
      (q : Machine)
      → n.storage ≡ held c i h
      → Contiguous (suc i) es
      → i + length es ≤ c.commit_index
      → replay es n.machine ≡ some q
      → Reached n c (i + length es) q (apply_entries decode run digest es n)
  unfolding apply_entries apply_entry
  apply_entries-Reached [] n c i h q at run_on u r =
      (refl, refl, cc r, refl, (h, at ∙ ap (λ k. held c k h) (omega arith)))
  apply_entries-Reached (e ∷ es) n c i h q at run_on u r =
      let (m, first_effect, rest_effect) =
        replay-split (replay es) (effect e.type e n.machine) q r in
      let one =
        apply_kind-Reached n c i h at e (omega (arith, run_on.0)) (omega (arith, run_on.0, u))
          e.type m first_effect in
      then-Reached n c e.index (i + length (e ∷ es)) m q es _ one (λ t g at_t machine_t.
        subst (λ k. Reached t c k q (apply_entries decode run digest es t))
          (omega (arith, run_on.0))
          (apply_entries-Reached es t c e.index g q at_t
            (subst (λ k. Contiguous (suc k) es) (sym run_on.0) run_on.1)
            (omega (arith, run_on.0, u)) (ap (replay es) machine_t ∙ rest_effect)))

  -- What a node has done that began as `n` and has applied up to the index i.
  pub record Applied (n : Node Machine Value) (c : RaftCore) (i : ℕ) (m : Machine)
      (out : Result NodeError Unit × Node Machine Value) : Type 0 where
    pub fine : out.0 ≡ ok tt
    pub same_core : out.1.core ≡ n.core
    pub reached : out.1.machine ≡ m
    pub same_sent : out.1.sent ≡ n.sent
    pub history : List PersistBatch
    pub stored : out.1.storage ≡ held c i history

  -- If the storage, open and with no injected failure, holds the state of the core `c` with the applied
  -- index i, the entries follow i
  -- without a gap and are committed in `c`, and the state machine can replay them, then the node
  -- applies them all without an error. The state machine is then the replayed one, the applied index
  -- is stored, and the rest of the storage's state, the core and the messages are as they were.
  pub apply_entries-Applied :
      (es : List LogEntry) (n : Node Machine Value) (c : RaftCore) (i : ℕ) (h : List PersistBatch)
      (q : Machine)
      → n.storage ≡ held c i h
      → Contiguous (suc i) es
      → i + length es ≤ c.commit_index
      → replay es n.machine ≡ some q
      → Applied n c (i + length es) q (apply_entries decode run digest es n)
  apply_entries-Applied es n c i h q at run_on u r =
      let (fine, core, machine, sent, (g, storage)) =
        apply_entries-Reached es n c i h q at run_on u r in
      record {
        fine = fine;
        same_core = core;
        reached = machine;
        same_sent = sent;
        history = g;
        stored = storage;
      }
