-- ===== src/Cluster/Tenure.antt =====
-- A leader over its term: it neither resigns within the term nor changes what its log holds.
use node_raft_rsm.Base.{
  ◌≤◌, ◌≡◌, refl, ◌∙◌, subst, inl, inr, same, same→eq, List, arith, Bool-cases,
}
use node_raft_rsm.Types.{NodeId, leader}
use node_raft_rsm.Core.State.{RaftCore}
use node_raft_rsm.Core.Step.{advance, step}
use node_raft_rsm.Core.Linked.{Extends, Extends-refl, Extends-trans, Settled}
use node_raft_rsm.Cluster.{System, update, Step, event_at, advance_at, Run, here, next, Started}
use node_raft_rsm.Cluster.Invariant.{Inv, Run-Inv, Started-Inv}
use node_raft_rsm.Cluster.Logs.{Makers, Made, SameLog, advance-SameLog}
use node_raft_rsm.Cluster.Matching.{Logged, Run-Logged, Started-Logged, handover}

-- The node leads, and has only appended to its log.
pub record Reigns (c d : RaftCore) : Type 0 where
  pub role : d.role ≡ leader
  pub extends : Extends c.entries d.entries

pub record Tenure (c d : RaftCore) : Type 0 where
  pub term_grows : c.current_term ≤ d.current_term
  reigns : c.role ≡ leader → d.current_term ≡ c.current_term → Reigns c d

Tenure-refl : (c : RaftCore) → Tenure c c
Tenure-refl c = record {
  term_grows = omega arith;
  reigns = λ lead t. record { role = lead; extends = Extends-refl c.entries c.entries refl };
}

Tenure-trans : (c d e : RaftCore) → Tenure c d → Tenure d e → Tenure c e
Tenure-trans c d e p q = record {
  term_grows = omega (arith, p.term_grows, q.term_grows);
  reigns = λ lead t.
      let first = p.reigns lead (omega (arith, p.term_grows, q.term_grows, t)) in
      let second = q.reigns first.role (omega (arith, p.term_grows, q.term_grows, t)) in
      record {
        role = second.role;
        extends = Extends-trans c.entries d.entries e.entries first.extends second.extends;
      };
}

Settled-Tenure : (K : Makers) (b c : RaftCore) → Settled (Made K) b c → Tenure b c
Settled-Tenure K b c s = record {
  term_grows = s.term_grows;
  reigns = λ lead t.
      let still = s.reign lead t in record { role = still; extends = s.grown (λ f. cc (still, f)) };
}

SameLog-Tenure : (c d : RaftCore) → SameLog c d → Tenure c d
SameLog-Tenure c d e = record {
  term_grows = omega (arith, e.term);
  reigns = λ lead t. record {
    role = e.role ∙ lead;
    extends = Extends-refl c.entries d.entries e.entries;
  };
}

Tenure-update :
    (core : NodeId → RaftCore) (i j : NodeId) (c : RaftCore)
    → Tenure (core i) c
    → Tenure (core j) (update core i c j)
Tenure-update core i j c p = elim (Bool-cases (same i j)) [
  | inl e ↦ rw e (subst (λ n. Tenure (core n) c) (same→eq i j e) p)
  | inr e ↦ rw e (Tenure-refl (core j))
]

pub Step-Tenure :
    {members : List NodeId} {s t : System}
    → Step members s t
    → Inv members s
    → Logged members s
    → (j : NodeId) → Tenure (s.core j) (t.core j)
Step-Tenure {s = s} (event_at i event mine arrives) inv (K, logs) j =
    Tenure-update s.core i j (step event (s.core i)).1 (
      Settled-Tenure K (s.core i) (step event (s.core i)).1
        (handover K inv logs i mine event arrives).0)
Step-Tenure {s = s} (advance_at i ready mine) inv logged j =
    Tenure-update s.core i j (advance ready (s.core i)).1
      (SameLog-Tenure (s.core i) (advance ready (s.core i)).1 (advance-SameLog ready (s.core i)))

pub Run-Tenure :
    {members : List NodeId} {s t : System}
    → Inv members s
    → Logged members s
    → Run members s t
    → (j : NodeId) → Tenure (s.core j) (t.core j)
Run-Tenure {s = s} inv logged here j = Tenure-refl (s.core j)
Run-Tenure inv logged (next r st) j =
    Tenure-trans _ _ _ (Run-Tenure inv logged r j)
      (Step-Tenure st (Run-Inv inv r) (Run-Logged inv logged r) j)

-- A leader only appends. The system starts and goes on as for election safety. If a member leads in
-- a state that it reaches, then in every later state in which the member's term is still the same,
-- the member still leads, and its log is its earlier log with nothing or with entries after it.
pub leader_append_only :
    {members : List NodeId} {start s t : System}
    → Started members start
    → Run members start s
    → Run members s t
    → (i : NodeId) → (s.core i).role ≡ leader
    → (t.core i).current_term ≡ (s.core i).current_term
    → Reigns (s.core i) (t.core i)
leader_append_only st r q i lead same_term =
    let inv = Run-Inv (Started-Inv st) r in
    let logged = Run-Logged (Started-Inv st) (Started-Logged st) r in
    (Run-Tenure inv logged q i).reigns lead same_term
