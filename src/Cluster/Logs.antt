-- ===== src/Cluster/Logs.antt =====
-- What the logs of a cluster are made of: links, each made by the leader of its entry's term. True
-- at the start and kept by every step.
use node_raft_rsm.Base.{
  suc, ◌==◌, In, ℕ, ◌≤◌, ◌<◌, ◌≡◌, ◌≢◌, refl, ◌∙◌, ◌⊎◌, inl, inr, true, has, length, get, none,
  List, arith, Bool-cases,
}
use node_raft_rsm.Types.{NodeId, leader, RaftMessage, request_vote_request, append_entries_request}
use node_raft_rsm.Core.State.{RaftCore}
use node_raft_rsm.Core.Step.{advance}
use node_raft_rsm.Core.Log.{Contiguous}
use node_raft_rsm.Core.Chains.{Link, Chain, Chain-mono}
use node_raft_rsm.Core.Linked.{Fresh, Source, Settled, Extends-length, Extends-refl}
use node_raft_rsm.Cluster.{Ballot, System}
use node_raft_rsm.Cluster.Election.{Elected, Elected-more}

abbrev pub Makers : Type 1
Makers = NodeId → Link → Type 0

-- A link that some node has made.
abbrev pub Made : Makers → Link → Type 0
Made K l = (i : NodeId) × K i l

-- The node will not make another entry for the link's term and index.
abbrev pub Past : RaftCore → Link → Type 0
Past c l =
    (l.entry.term < c.current_term)
    ⊎ ((l.entry.term ≡ c.current_term) × (c.role ≡ leader) × (l.entry.index ≤ length c.entries))

pub record Node (K : Makers) (c : RaftCore) : Type 0 where
  pub chain : Chain (Made K) 0 c.entries
  pub contiguous : Contiguous 1 c.entries
  pub no_snapshot : c.snapshot ≡ none
  pub selfless : get c.progress c.node_id ≡ none

abbrev pub Mail : Makers → List NodeId → List Ballot → RaftMessage → Type 0
Mail K members bs (append_entries_request m) =
    Elected members bs m.base.from m.base.term
    × (m.base.to ≢ m.base.from)
    × Contiguous (suc m.prev_log_index) m.entries
    × Chain (Made K) m.prev_log_term m.entries
Mail K members bs (request_vote_request m) = m.base.to ≢ m.base.from
Mail K members bs m = Unit {0}

pub record Maker (members : List NodeId) (s : System) (i : NodeId) (l : Link) : Type 0 where
  pub one : has i members ≡ true
  pub elected : Elected members s.ballots i l.entry.term
  pub past : Past (s.core i) l

pub record Logs (K : Makers) (members : List NodeId) (s : System) : Type 0 where
  pub node : (i : NodeId) → has i members ≡ true → Node K (s.core i)
  pub apart :
      (l m : Link) (i j : NodeId)
      → K i l
      → K j m
      → l.entry.index ≡ m.entry.index
      → l.entry.term ≡ m.entry.term
      → l ≡ m
  pub maker : (i : NodeId) (l : Link) → K i l → Maker members s i l
  pub mail : (m : RaftMessage) → In m s.sent → Mail K members s.ballots m

pub Mail-more :
    (K L : Makers) (members : List NodeId) (bs cs : List Ballot) (m : RaftMessage)
    → ((l : Link) → Made K l → Made L l)
    → ((x : Ballot) → In x bs → In x cs)
    → Mail K members bs m
    → Mail L members cs m
Mail-more K L members bs cs (append_entries_request m) k more (e, other, run, chain) =
    (Elected-more more e, other, run, Chain-mono (Made K) (Made L) _ m.entries k chain)
Mail-more K L members bs cs (request_vote_request m) k more other = other
Mail-more K L members bs cs m k more h = tt

pub Node-more :
    (K L : Makers) (c : RaftCore) → ((l : Link) → Made K l → Made L l) → Node K c → Node L c
Node-more K L c k n = record {
  chain = Chain-mono (Made K) (Made L) 0 c.entries k n.chain;
  contiguous = n.contiguous;
  no_snapshot = n.no_snapshot;
  selfless = n.selfless;
}

-- Before a step, everything that the node holds is known.
pub Node-Settled : (K : Makers) (c : RaftCore) → Node K c → Settled (Made K) c c
Node-Settled K c n = record {
  chain = Chain-mono (Made K) (Source (Made K) c c) 0 c.entries (λ l k. inl k) n.chain;
  contiguous = n.contiguous;
  no_snapshot = n.no_snapshot;
  same_id = refl;
  term_grows = omega arith;
  vote_kept = λ v t h. h;
  reign = λ r t. r;
  grown = λ f. Extends-refl c.entries c.entries refl;
  selfless = n.selfless;
}

-- The links after a step: the node `i` has made those that are fresh.
abbrev pub remade : Makers → NodeId → RaftCore → RaftCore → Makers
remade K i b c j l = K j l ⊎ ((j ≡ i) × Fresh (Made K) b c l)

pub Source-Made :
    (K : Makers) (i : NodeId) (b c : RaftCore) (l : Link)
    → Source (Made K) b c l
    → Made (remade K i b c) l
Source-Made K i b c l (inl (j, k)) = (j, inl k)
Source-Made K i b c l (inr f) = (i, inr (refl, f))

pub Made-more :
    (K : Makers) (i : NodeId) (b c : RaftCore) (l : Link) → Made K l → Made (remade K i b c) l
Made-more K i b c l (j, k) = (j, inl k)

pub Settled-Node :
    (K : Makers) (i : NodeId) (b c : RaftCore) → Settled (Made K) b c → Node (remade K i b c) c
Settled-Node K i b c s = record {
  chain = Chain-mono _ _ 0 c.entries (Source-Made K i b c) s.chain;
  contiguous = s.contiguous;
  no_snapshot = s.no_snapshot;
  selfless = s.selfless;
}

pub Past-later :
    (K : Makers) (b c : RaftCore) (l : Link) → Settled (Made K) b c → Past b l → Past c l
Past-later K b c l s (inl h) = inl (omega (arith, s.term_grows, h))
Past-later K b c l s (inr (t, lead, h)) = elim (Bool-cases (c.current_term == b.current_term)) [
  | inl g ↦
      let still = s.reign lead (ground arith) in
      inr (
        ground arith,
        still,
        omega (arith, h, Extends-length b.entries c.entries (s.grown (λ f. cc (still, f)))),
      )
  | inr g ↦ inl (ground (arith, s.term_grows))
]

pub Past-Fresh :
    (K : Makers) (b c : RaftCore) (l m : Link)
    → Settled (Made K) b c
    → Past b l
    → Fresh (Made K) b c m
    → l.entry.index ≡ m.entry.index
    → l.entry.term ≢ m.entry.term
Past-Fresh K b c l m s (inl h) (lead, term, above, there) i t =
    omega (arith, s.term_grows, h, term, t)
Past-Fresh K b c l m s (inr (same_term, r, h)) (lead, term, above, there) i t =
    omega (arith, h, above, i)

-- Two states of a node with the same log, in the same office.
pub record SameLog (c d : RaftCore) : Type 0 where
  pub id : d.node_id ≡ c.node_id
  pub entries : d.entries ≡ c.entries
  pub snapshot : d.snapshot ≡ c.snapshot
  pub term : d.current_term ≡ c.current_term
  pub role : d.role ≡ c.role
  pub progress : d.progress ≡ c.progress

pub advance-SameLog : (ready : ℕ) (c : RaftCore) → SameLog c (advance ready c).1
unfolding advance
advance-SameLog ready c = record {
  id = ground arith;
  entries = ground arith;
  snapshot = ground arith;
  term = ground arith;
  role = ground arith;
  progress = ground arith;
}

pub Node-SameLog : (K : Makers) (c d : RaftCore) → SameLog c d → Node K c → Node K d
Node-SameLog K c d e n = record {
  chain = rw e.entries n.chain;
  contiguous = rw e.entries n.contiguous;
  no_snapshot = e.snapshot ∙ n.no_snapshot;
  selfless = rw (e.progress, e.id) n.selfless;
}

pub Past-SameLog : (c d : RaftCore) (l : Link) → SameLog c d → Past c l → Past d l
Past-SameLog c d l e p = rw (e.term, e.role, e.entries) p
