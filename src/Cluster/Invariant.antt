-- ===== src/Cluster/Invariant.antt =====
-- Who has voted for whom: true at the start and kept by every step of the cluster.
use node_raft_rsm.Base.{
  In, In-append, In-append_left, In-append_right, All-mono, All-In, ℕ, ◌≤◌, ◌≡◌, ◌≢◌, refl, ◌∙◌,
  sym, ap, subst, inl, inr, true, same, same→eq, has, Option, none, some, List, ◌++◌, ok, arith,
  Bool-cases,
}
use node_raft_rsm.Types.{
  NodeId, follower, RaftMessage, request_vote_response, RaftEvent, message, RaftCoreOptions,
}
use node_raft_rsm.Core.State.{RaftCore, has_quorum}
use node_raft_rsm.Core.Handlers.{addressed}
use node_raft_rsm.Core.Step.{advance, step, create, fresh}
use node_raft_rsm.Core.Ballots.{
  Tallied, Voting, Stamped, Counts, step-Voting, sent_by, outcome, SameVotes, advance-SameVotes,
}
use node_raft_rsm.Cluster.{
  Ballot, System, update, vote_of, after_event, Step, event_at, advance_at, Run, here, next,
  Started,
}

-- The node has not gone back on the ballot.
abbrev pub Binding : RaftCore → Ballot → Type 0
Binding c b = (b.term ≤ c.current_term) × (b.term ≡ c.current_term → c.voted_for ≡ some b.choice)

abbrev pub Cast : List Ballot → NodeId → ℕ → NodeId → Type 0
Cast bs v t c = In (record { voter = v; term = t; choice = c }) bs

abbrev pub Honest : List Ballot → RaftMessage → Type 0
Honest bs (request_vote_response m) =
    m.vote_granted ≡ true → Cast bs m.base.from m.base.term m.base.to
Honest bs m = Unit {0}

pub record Member (members : List NodeId) (bs : List Ballot) (i : NodeId) (c : RaftCore)
    : Type 0 where
  pub own_id : c.node_id ≡ i
  pub same_members : c.members ≡ members
  pub tallied : Tallied (Cast bs) c
  pub own_vote : c.role ≢ follower → Cast bs i c.current_term i
  pub bound : (b : Ballot) → In b bs → b.voter ≡ i → Binding c b

pub record Inv (members : List NodeId) (s : System) : Type 0 where
  pub member : (i : NodeId) → has i members ≡ true → Member members s.ballots i (s.core i)
  pub unique :
      (x y : Ballot)
      → In x s.ballots
      → In y s.ballots
      → x.voter ≡ y.voter
      → x.term ≡ y.term
      → x.choice ≡ y.choice
  pub honest : (m : RaftMessage) → In m s.sent → Honest s.ballots m

In-vote_of :
    (i : NodeId) (t : ℕ) (o : Option NodeId) (v : NodeId) → o ≡ some v → Cast (vote_of i t o) i t v
In-vote_of i t none v e = cc
In-vote_of i t (some w) v e = inl (cc)

vote_of-In :
    (i : NodeId) (t : ℕ) (o : Option NodeId) (x : Ballot)
    → In x (vote_of i t o)
    → (x.voter ≡ i) × (x.term ≡ t) × (o ≡ some x.choice)
vote_of-In i t none x h = elim h [ ]
vote_of-In i t (some v) x (inl e) = (
  ap (λ (y : Ballot). y.voter) e,
  ap (λ (y : Ballot). y.term) e,
  ap (λ (y : Ballot). some y.choice) (sym e),
)
vote_of-In i t (some v) x (inr h) = elim h [ ]

Tallied-more :
    (bs cs : List Ballot) (c : RaftCore) → Tallied (Cast bs) c → Tallied (Cast (cs ++ bs)) c
Tallied-more bs cs c t = record {
  tally = λ f.
      let tally = t.tally f in
      record {
        stands = tally.stands;
        cast =
            All-mono _ _ c.votes
              (λ v. elim [ inl k ↦ inl (In-append_right cs bs _ k) | inr e ↦ inr e ]) tally.cast;
        members = tally.members;
        single = tally.single;
      };
  quorum = t.quorum;
}

-- A node that stays as it is while another one votes.
Member-other :
    (members : List NodeId) (bs cs : List Ballot) (i j : NodeId) (c : RaftCore)
    → ((x : Ballot) → In x cs → x.voter ≡ i)
    → i ≢ j
    → Member members bs j c
    → Member members (cs ++ bs) j c
Member-other members bs cs i j c by ne m = record {
  own_id = m.own_id;
  same_members = m.same_members;
  tallied = Tallied-more bs cs c m.tallied;
  own_vote = λ f. In-append_right cs bs _ (m.own_vote f);
  bound = λ x h e. elim (In-append cs bs x h) [
    | inl new ↦ absurd (ne (sym (by x new) ∙ e))
    | inr old ↦ m.bound x old e
  ];
}

-- A node that has just taken a step, seen with the ballots before and after.
module _ (members : List NodeId) (bs : List Ballot) (i : NodeId) (b : RaftCore)
    (before : Member members bs i b) (event : RaftEvent)
    (received : (m : RaftMessage) → event ≡ message m → addressed m b ≡ true → Counts (Cast bs) b m)
    (here_member : has i members ≡ true) where
  abbrev after_step : RaftCore
  after_step = (step event b).1

  abbrev new_ballots : List Ballot
  new_ballots = vote_of i after_step.current_term after_step.voted_for ++ bs

  voting : Voting (Cast bs) b (outcome (step event b))
  voting =
      step-Voting (Cast bs) b (rw (before.own_id, before.same_members) here_member) event received
        before.tallied

  own_id_after : after_step.node_id ≡ i
  own_id_after = voting.same_id ∙ before.own_id

  own_ballots :
      (x : Ballot) → In x (vote_of i after_step.current_term after_step.voted_for) → x.voter ≡ i
  own_ballots x h = (vote_of-In i after_step.current_term after_step.voted_for x h).0

  own_vote_after : after_step.role ≢ follower → Cast new_ballots i after_step.current_term i
  own_vote_after f = In-append_left _ bs _ (
      In-vote_of i after_step.current_term after_step.voted_for i
        ((voting.tallied.tally f).stands ∙ ap some own_id_after))

  old_bound : (x : Ballot) → Binding b x → Binding after_step x
  old_bound x (le, same_vote) = (
    omega (arith, voting.term_grows),
    λ e.
        voting.vote_kept x.choice (omega (arith, voting.term_grows))
          (same_vote (omega (arith, voting.term_grows))),
  )

  new_bound : (x : Ballot) → In x new_ballots → x.voter ≡ i → Binding after_step x
  new_bound x h e =
      elim (In-append (vote_of i after_step.current_term after_step.voted_for) bs x h) [
        | inl new ↦
            let (_, t, v) = vote_of-In i after_step.current_term after_step.voted_for x new in
            (omega (arith, t), λ _. v)
        | inr old ↦ old_bound x (before.bound x old e)
      ]

  pub Member-after : Member members new_ballots i after_step
  Member-after = record {
    own_id = own_id_after;
    same_members = voting.same_members ∙ before.same_members;
    tallied = Tallied-more bs _ after_step voting.tallied;
    own_vote = own_vote_after;
    bound = new_bound;
  }

  -- A new ballot agrees with every ballot of the same voter and term.
  new_unique :
      (x y : Ballot)
      → In x (vote_of i after_step.current_term after_step.voted_for)
      → In y new_ballots
      → x.voter ≡ y.voter
      → x.term ≡ y.term
      → x.choice ≡ y.choice
  new_unique x y new h e t =
      let (own, current, chosen) =
        vote_of-In i after_step.current_term after_step.voted_for x new in
      let kept = (new_bound y h (sym e ∙ own)).1 (sym t ∙ current) in ground arith

  Stamped-Honest : (m : RaftMessage) → Stamped after_step m → Honest new_ballots m
  Stamped-Honest (request_vote_response m) p = λ g. In-append_left _ bs _ (
      rw (p.sender, own_id_after, p.current)
        (In-vote_of i after_step.current_term after_step.voted_for m.base.to (p.voted g)))
  Stamped-Honest m p = tt

  pub sent-Honest : (m : RaftMessage) → In m (sent_by (step event b).0) → Honest new_ballots m
  sent-Honest m h = Stamped-Honest m (All-In (Stamped after_step) _ m voting.stamped h)

  pub sent-Stamped : (m : RaftMessage) → In m (sent_by (step event b).0) → Stamped after_step m
  sent-Stamped m h = All-In (Stamped after_step) _ m voting.stamped h

Honest-more : (bs cs : List Ballot) (m : RaftMessage) → Honest bs m → Honest (cs ++ bs) m
Honest-more bs cs (request_vote_response m) h = λ g. In-append_right cs bs _ (h g)
Honest-more bs cs m h = tt

Member-SameVotes :
    {members : List NodeId} {bs : List Ballot} {i : NodeId} {c d : RaftCore}
    → SameVotes c d
    → Member members bs i c
    → Member members bs i d
unfolding has_quorum
Member-SameVotes {bs} {i} {c} {d} e m = record {
  own_id = e.id ∙ m.own_id;
  same_members = e.members ∙ m.same_members;
  tallied = record {
    tally = λ f.
        let tally = m.tallied.tally (λ g. f (e.role ∙ g)) in
        record {
          stands = e.vote ∙ tally.stands ∙ ap some (sym e.id);
          cast = rw (e.votes, e.term, e.id) tally.cast;
          members = rw (e.votes, e.members) tally.members;
          single = rw e.votes tally.single;
        };
    quorum = λ f. rw (e.members, e.votes) (m.tallied.quorum (sym e.role ∙ f));
  };
  own_vote = λ f. rw e.term (m.own_vote (λ g. f (e.role ∙ g)));
  bound = λ x h v.
      let (le, same_vote) = m.bound x h v in
      (omega (arith, le, e.term), λ t. e.vote ∙ same_vote (t ∙ e.term));
}

Counts-of :
    {members : List NodeId} {s : System}
    → Inv members s
    → (i : NodeId) → has i members ≡ true
    → (m : RaftMessage) → In m s.sent
    → addressed m (s.core i) ≡ true
    → Counts (Cast s.ballots) (s.core i) m
Counts-of {s = s} inv i here_member (request_vote_response m) h a = (
  ground arith,
  λ g.
      rw (← same→eq m.base.to (s.core i).node_id (ground arith))
        (inv.honest (request_vote_response m) h g),
)
Counts-of {s = s} inv i here_member m h a = tt

module _ {members : List NodeId} {s : System} (inv : Inv members s) (i : NodeId)
    (mine : has i members ≡ true) where
  module _ (event : RaftEvent) (arrives : (m : RaftMessage) → event ≡ message m → In m s.sent) where
    received :
        (m : RaftMessage)
        → event ≡ message m
        → addressed m (s.core i) ≡ true
        → Counts (Cast s.ballots) (s.core i) m
    received m e a = Counts-of inv i mine m (arrives m e) a

    event-Member :
        (j : NodeId)
        → has j members ≡ true
        → Member members (after_event s i event).ballots j ((after_event s i event).core j)
    event-Member j theirs = elim (Bool-cases (same i j)) [
      | inl e ↦ rw e (
          subst (λ k. Member members (after_event s i event).ballots k (step event (s.core i)).1)
            (same→eq i j e)
            (Member-after members s.ballots i (s.core i) (inv.member i mine) event received mine))
      | inr e ↦ rw e (
          Member-other members s.ballots _ i j (s.core j)
            (own_ballots members s.ballots i (s.core i) (inv.member i mine) event received mine)
            (λ p. ground arith) (inv.member j theirs))
    ]

    new-Honest :
        (m : RaftMessage)
        → In m (sent_by (step event (s.core i)).0)
        → Honest (after_event s i event).ballots m
    new-Honest = sent-Honest members s.ballots i (s.core i) (inv.member i mine) event received mine

    pub event-Stamped :
        (m : RaftMessage)
        → In m (sent_by (step event (s.core i)).0)
        → Stamped (step event (s.core i)).1 m
    event-Stamped =
        sent-Stamped members s.ballots i (s.core i) (inv.member i mine) event received mine

    cast_now : List Ballot
    cast_now = vote_of i (step event (s.core i)).1.current_term (step event (s.core i)).1.voted_for

    newer_unique :
        (x y : Ballot)
        → In x cast_now
        → In y (after_event s i event).ballots
        → x.voter ≡ y.voter
        → x.term ≡ y.term
        → x.choice ≡ y.choice
    unfolding cast_now
    newer_unique = new_unique members s.ballots i (s.core i) (inv.member i mine) event received mine

    event_unique :
        (x y : Ballot)
        → In x (after_event s i event).ballots
        → In y (after_event s i event).ballots
        → x.voter ≡ y.voter
        → x.term ≡ y.term
        → x.choice ≡ y.choice
    unfolding cast_now
    event_unique x y hx hy v t = elim (In-append cast_now s.ballots x hx) [
      | inl new ↦ newer_unique x y new hy v t
      | inr old ↦ elim (In-append cast_now s.ballots y hy) [
        | inl new ↦ sym (newer_unique y x new hx (sym v) (sym t))
        | inr both ↦ inv.unique x y old both v t
      ]
    ]

    pub event-Inv : Inv members (after_event s i event)
    event-Inv = record {
      member = event-Member;
      unique = event_unique;
      honest = λ m h. elim (In-append (sent_by (step event (s.core i)).0) s.sent m h) [
        | inl new ↦ new-Honest m new
        | inr old ↦ Honest-more s.ballots _ m (inv.honest m old)
      ];
    }

  advance-Member :
      (ready : ℕ) (j : NodeId)
      → has j members ≡ true
      → Member members s.ballots j (update s.core i (advance ready (s.core i)).1 j)
  advance-Member ready j theirs = elim (Bool-cases (same i j)) [
    | inl e ↦ rw e (
        subst (λ k. Member members s.ballots k (advance ready (s.core i)).1) (same→eq i j e)
          (Member-SameVotes (advance-SameVotes ready (s.core i)) (inv.member i mine)))
    | inr e ↦ rw e (inv.member j theirs)
  ]

  advance-Inv :
      (ready : ℕ) → Inv members (record s { core = update s.core i (advance ready (s.core i)).1 })
  advance-Inv ready = record {
    member = advance-Member ready;
    unique = inv.unique;
    honest = inv.honest;
  }

-- Every step of the cluster keeps the invariant.
pub Step-Inv :
    {members : List NodeId} {s t : System} → Step members s t → Inv members s → Inv members t
Step-Inv (event_at i event mine arrives) inv = event-Inv inv i mine event arrives
Step-Inv (advance_at i ready mine) inv = advance-Inv inv i mine ready

pub Run-Inv :
    {members : List NodeId} {s t : System} → Inv members s → Run members s t → Inv members t
Run-Inv inv here = inv
Run-Inv inv (next r st) = Step-Inv st (Run-Inv inv r)

pub create-fresh :
    (o : RaftCoreOptions) (c : RaftCore) → o.persisted ≡ none → create o ≡ ok c → c ≡ fresh o
unfolding create
create-fresh o c blank made = ground arith

pub Started-Inv : {members : List NodeId} {s : System} → Started members s → Inv members s
Started-Inv {members} {s} st = record {
  member = λ i h.
      subst (Member members s.ballots i)
        (sym (create-fresh (st.options i) (s.core i) (st.blank i h) (st.created i h)))
        (record {
          own_id = st.own_id i h;
          same_members = st.same_members i h;
          tallied = record { tally = λ f. absurd (f refl); quorum = λ f. cc };
          own_vote = λ f. absurd (f refl);
          bound = λ x k. elim (rw st.unvoted at k) [ ];
        });
  unique = λ x y h. elim (rw st.unvoted at h) [ ];
  honest = λ m h. elim (rw st.silent at h) [ ];
}
