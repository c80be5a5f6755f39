-- ===== src/Cluster/Election.antt =====
-- At most one leader in a term, over the whole history of a cluster.
use node_raft_rsm.Base.{
  In, In-append_right, All-mono, ℕ, ◌+◌, ◌/◌, ◌≤◌, ◌≡◌, refl, ◌∙◌, sym, subst, inl, inr, true,
  same→eq, has, length, All, List, [], ◌∷◌, arith, leb→le, majorities_meet, Bool-cases, same,
  Within, distinct,
}
use node_raft_rsm.Types.{NodeId, leader}
use node_raft_rsm.Core.State.{RaftCore, has_quorum}
use node_raft_rsm.Cluster.{Ballot, System, Step, event_at, advance_at, Run, here, next, Started}
use node_raft_rsm.Cluster.Invariant.{Cast, Member, Inv, Run-Inv, Started-Inv}

All-has : (P : NodeId → Type 0) (xs : List NodeId) (v : NodeId) → All P xs → has v xs ≡ true → P v
All-has P [] v p h = absurd (ground arith)
All-has P (x ∷ xs) v p h = elim (Bool-cases (same x v)) [
  | inl e ↦ subst P (same→eq x v e) p.0
  | inr e ↦ All-has P xs v p.1 (ground arith)
]

pub Step-ballots :
    {members : List NodeId} {s t : System} (x : Ballot)
    → Step members s t
    → In x s.ballots
    → In x t.ballots
Step-ballots {s} x (event_at i event mine arrives) h = In-append_right _ s.ballots x h
Step-ballots x (advance_at i ready mine) h = h

Run-ballots :
    {members : List NodeId} {s t : System} (x : Ballot)
    → Run members s t
    → In x s.ballots
    → In x t.ballots
Run-ballots x here h = h
Run-ballots x (next r st) h = Step-ballots x st (Run-ballots x r h)

pub record Elected (members : List NodeId) (bs : List Ballot) (i : NodeId) (term : ℕ) : Type 0 where
  votes : List NodeId
  cast : All (λ v. Cast bs v term i) votes
  within : Within votes members
  single : distinct votes ≡ true
  majority : length members / 2 + 1 ≤ length votes

pub Elected-of :
    {members : List NodeId} {bs : List Ballot} {i : NodeId} {c : RaftCore}
    → Member members bs i c
    → c.role ≡ leader
    → Elected members bs i c.current_term
unfolding has_quorum
Elected-of {members} {bs} {i} {c} m lead =
    let tally = m.tallied.tally (λ e. cc) in
    record {
      votes = c.votes;
      cast =
          All-mono _ _ c.votes
            (λ v. elim [
              | inl k ↦ subst (Cast bs v c.current_term) m.own_id k
              | inr e ↦
                  subst (λ w. Cast bs w c.current_term i) (sym (e ∙ m.own_id))
                    (m.own_vote (λ f. cc (lead, f)))
            ])
            tally.cast;
      within = rw (← m.same_members) tally.members;
      single = tally.single;
      majority = rw (← m.same_members) (leb→le _ _ (m.tallied.quorum lead));
    }

pub Elected-more :
    {members : List NodeId} {bs cs : List Ballot} {i : NodeId} {term : ℕ}
    → ((x : Ballot) → In x bs → In x cs)
    → Elected members bs i term
    → Elected members cs i term
Elected-more {i = i} {term = term} more e = record {
  votes = e.votes;
  cast =
      All-mono _ _ e.votes (λ v h. more (record { voter = v; term = term; choice = i }) h) e.cast;
  within = e.within;
  single = e.single;
  majority = e.majority;
}

-- Two candidates that a majority elected in the same term are one.
pub Elected-unique :
    {members : List NodeId} {s : System} {i j : NodeId} {term : ℕ}
    → Inv members s
    → Elected members s.ballots i term
    → Elected members s.ballots j term
    → i ≡ j
Elected-unique {members} {s} {i} {j} {term} inv a b =
    let (v, in_a, in_b) =
      majorities_meet a.votes b.votes members a.single b.single a.within b.within a.majority
        b.majority in
    inv.unique (record { voter = v; term = term; choice = i })
      (record { voter = v; term = term; choice = j })
      (All-has (λ v. Cast s.ballots v term i) a.votes v a.cast in_a)
      (All-has (λ v. Cast s.ballots v term j) b.votes v b.cast in_b) refl refl

-- Election safety. The system starts with a core for each member that the constructor accepts
-- without a persisted state, all with one list of members; nothing is sent and no vote is cast yet.
-- It goes on by events at single nodes, a received message being one that was sent before, and by
-- advances. If one member leads in a state that it reaches, and one leads in the same term in that
-- state or in any later one, then they are the same member.
pub election_safety :
    {members : List NodeId} {start s t : System}
    → Started members start
    → Run members start s
    → Run members s t
    → (i j : NodeId) → has i members ≡ true
    → has j members ≡ true
    → (s.core i).role ≡ leader
    → (t.core j).role ≡ leader
    → (s.core i).current_term ≡ (t.core j).current_term
    → i ≡ j
election_safety {members} {start} {s} {t} st r q i j hi hj li lj same_term =
    let inv = Run-Inv (Started-Inv st) r in
    let later = Run-Inv inv q in
    Elected-unique later (Elected-more (λ x h. Run-ballots x q h) (Elected-of (inv.member i hi) li))
      (subst (Elected members t.ballots j) (sym same_term) (Elected-of (later.member j hj) lj))
