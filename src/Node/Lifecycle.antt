-- ===== src/Node/Lifecycle.antt =====
-- packages/raft-node/src/node.ts: starting and stopping a node, and the operations that it refuses
-- when it does not run or has failed. The transport hands over a received message in any case.
use node_raft_rsm.Base.{
  ℕ, ◌≡◌, refl, sym, subst, ◌∙◌, ap, inl, inr, ◌⊎◌, Text, Bytes, true, false, not, ◌||◌,
  if◌then◌else◌, Option, some, List, [], ◌∷◌, Result, ok, err, Bool-cases,
}
use node_raft_rsm.Types.{
  LogEntry, RaftMessage, RaftEvent, RaftReady, election_timeout, heartbeat_timeout, message,
}
use node_raft_rsm.Core.State.{RaftCore}
use node_raft_rsm.Core.Step.{step, step_beside}
use node_raft_rsm.Storage.{close}
use node_raft_rsm.Node.{NodeError, not_running, Node, process, propose_command}

module _ {Command Machine Value : Type 0} (decode : Bytes → Option Command)
    (run : Command → LogEntry → Machine → Option (Value × Machine)) (digest : Bytes → Text) where
  abbrev Outcome : Type 0
  Outcome = Result NodeError Unit × Node Machine Value

  abbrev pub start_node : Node Machine Value → Outcome
  start_node n =
      if n.started
      then (ok tt, n)
      else if not n.healthy
      then (err not_running, n)
      else (ok tt, record n { started = true })

  -- The promises of the pending commands are rejected, and the storage is closed.
  abbrev pub stop_node : Node Machine Value → Outcome
  stop_node n =
      if not n.started
      then (ok tt, n)
      else (ok tt, record n { started = false; pending = []; storage = close n.storage })

  -- `#assertRunning`, and then the event.
  abbrev pub process_running : RaftEvent → Node Machine Value → Outcome
  process_running event n =
      if not n.started || not n.healthy
      then (err not_running, n)
      else process decode run digest event n

  abbrev pub campaign : ℕ → Node Machine Value → Outcome
  campaign timeout n = process_running (election_timeout timeout) n

  abbrev pub heartbeat : Node Machine Value → Outcome
  heartbeat n = process_running heartbeat_timeout n

  pub data NodeCall : Type 0 where
    starts stops heartbeats : NodeCall
    campaigns : ℕ → NodeCall
    proposes : Text → Bytes → NodeCall
    receives : RaftMessage → NodeCall

  -- What the call makes of the node.
  abbrev pub after_call : NodeCall → Node Machine Value → Node Machine Value
  after_call starts n = (start_node n).1
  after_call stops n = (stop_node n).1
  after_call heartbeats n = (heartbeat n).1
  after_call (campaigns timeout) n = (campaign timeout n).1
  after_call (proposes id payload) n = (propose_command decode run digest id payload n).1
  after_call (receives m) n = (process decode run digest (message m) n).1

  abbrev pub after_calls : List NodeCall → Node Machine Value → Node Machine Value
  after_calls [] n = n
  after_calls (call ∷ calls) n = after_calls calls (after_call call n)

  -- Of the earlier node, all is as it was but the open calls, and the storage may have been closed.
  pub record Frozen (n t : Node Machine Value) : Type 0 where
    pub core : t.core ≡ n.core
    pub machine : t.machine ≡ n.machine
    pub sent : t.sent ≡ n.sent
    pub answers : t.answers ≡ n.answers
    pub completed : t.completed ≡ n.completed
    pub unhealthy : t.healthy ≡ false
    pub storage : (t.storage ≡ n.storage) ⊎ (t.storage ≡ close n.storage)

  Frozen-same : (n t : Node Machine Value) → n.healthy ≡ false → t ≡ n → Frozen n t
  Frozen-same n t h e = subst (Frozen n) (sym e) (record {
    core = refl;
    machine = refl;
    sent = refl;
    answers = refl;
    completed = refl;
    unhealthy = h;
    storage = inl refl;
  })

  closed-again :
      (n t u : Node Machine Value)
      → Frozen n t
      → (u.storage ≡ t.storage) ⊎ (u.storage ≡ close t.storage)
      → (u.storage ≡ n.storage) ⊎ (u.storage ≡ close n.storage)
  unfolding close
  closed-again n t u p (inl e) = elim p.storage [ inl f ↦ inl (e ∙ f) | inr f ↦ inr (e ∙ f) ]
  closed-again n t u p (inr e) =
      inr (e ∙ elim p.storage [ inl f ↦ ap close f | inr f ↦ ap close f ])

  Frozen-trans : (n t u : Node Machine Value) → Frozen n t → Frozen t u → Frozen n u
  Frozen-trans n t u p q = record {
    core = q.core ∙ p.core;
    machine = q.machine ∙ p.machine;
    sent = q.sent ∙ p.sent;
    answers = q.answers ∙ p.answers;
    completed = q.completed ∙ p.completed;
    unhealthy = q.unhealthy;
    storage = closed-again n t u p q.storage;
  }

  module _ (n : Node Machine Value) (h : n.healthy ≡ false) where
    start-same : (start_node n).1 ≡ n
    start-same = elim (Bool-cases n.started) [ inl g ↦ rw g refl | inr g ↦ rw (g, h) refl ]

    stop-same : n.started ≡ false → (stop_node n).1 ≡ n
    stop-same g = rw g refl

    stopped_node : Node Machine Value
    stopped_node = record n { started = false; pending = []; storage = close n.storage }

    stop-shut : n.started ≡ true → (stop_node n).1 ≡ stopped_node
    unfolding stopped_node
    stop-shut g = rw g refl

    stopped-Frozen : Frozen n stopped_node
    unfolding stopped_node
    stopped-Frozen = record {
      core = refl;
      machine = refl;
      sent = refl;
      answers = refl;
      completed = refl;
      unhealthy = h;
      storage = inr refl;
    }

    stop-Frozen : Frozen n (stop_node n).1
    stop-Frozen = elim (Bool-cases n.started) [
      | inr g ↦ Frozen-same n _ h (stop-same g)
      | inl g ↦ subst (Frozen n) (sym (stop-shut g)) stopped-Frozen
    ]

    not_run : (not n.started || not n.healthy) ≡ true
    not_run = elim (Bool-cases n.started) [ inl g ↦ rw (g, h) refl | inr g ↦ rw g refl ]

    process_running-same : (event : RaftEvent) → (process_running event n).1 ≡ n
    process_running-same event = rw not_run refl

    propose-same :
        (id : Text) (payload : Bytes) → (propose_command decode run digest id payload n).1 ≡ n
    unfolding propose_command
    propose-same id payload = rw not_run refl

    process-same :
        (r : RaftReady) (event : RaftEvent)
        → n.core.outstanding ≡ some r
        → (process decode run digest event n).1 ≡ n
    unfolding process step step_beside
    process-same r event o = rw o refl

    call-Frozen :
        (r : RaftReady) (call : NodeCall)
        → n.core.outstanding ≡ some r
        → Frozen n (after_call call n)
    call-Frozen r starts o = Frozen-same n _ h start-same
    call-Frozen r stops o = stop-Frozen
    call-Frozen r heartbeats o = Frozen-same n _ h (process_running-same heartbeat_timeout)
    call-Frozen r (campaigns timeout) o =
        Frozen-same n _ h (process_running-same (election_timeout timeout))
    call-Frozen r (proposes id payload) o = Frozen-same n _ h (propose-same id payload)
    call-Frozen r (receives m) o = Frozen-same n _ h (process-same r (message m) o)

  -- A node that has failed while it processed a Ready, so that it is unhealthy and its core still has
  -- the Ready outstanding, stays as it is. Whatever calls follow, of start, stop, campaign, heartbeat
  -- and propose, and whatever messages arrive, its core, its state machine, what it has sent, answered
  -- and completed are unchanged, it is unhealthy, and its storage is as it was or closed.
  pub failed_node-Frozen :
      (calls : List NodeCall) (n : Node Machine Value) (r : RaftReady)
      → n.healthy ≡ false
      → n.core.outstanding ≡ some r
      → Frozen n (after_calls calls n)
  failed_node-Frozen [] n r h o = Frozen-same n n h refl
  failed_node-Frozen (call ∷ calls) n r h o =
      let first = call-Frozen n h r call o in
      Frozen-trans n (after_call call n) _ first (
        failed_node-Frozen calls (after_call call n) r first.unhealthy
          (ap (λ (c : RaftCore). c.outstanding) first.core ∙ o))
