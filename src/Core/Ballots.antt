-- ===== src/Core/Ballots.antt =====
-- Terms, votes and tallies in `RaftCore`: what one step keeps, whether it returns or throws.
-- `Known v t c` says that the vote of `v` in the term `t` is known to have gone to `c`.
use node_raft_rsm.Base.{
  All-snoc, ℕ, ◌≤◌, ◌≡◌, ◌≢◌, refl, ◌∙◌, sym, ap, ◌⊎◌, inl, inr, true, Text, Bytes, has, length,
  distinct, Within, distinct-add, Within-add, All, Option, none, some, List, [], ◌∷◌, Result,
  Result-cases, Exec, ok, err, proceed, ◌>>◌, arith, Bool-cases,
}
use node_raft_rsm.Types.{
  NodeId, follower, candidate, leader, EntryType, LogEntry, RequestVoteRequest, RequestVoteResponse,
  RaftMessage, request_vote_response, base_of, RaftEvent, message, RaftReady,
}
use node_raft_rsm.Core.State.{PeerProgress, RaftCore, State, Error, has_quorum, send, no_effects}
use node_raft_rsm.Core.Leader.{append_local, append_request, set_commit, take_office}
use node_raft_rsm.Core.Handlers.{
  stand, become_follower, grants, cast_vote, add_vote, append_entries, append_all, Appending,
  resolve_conflict, extend_log, learn_commit, set_progress, acknowledged, backed_up, addressed,
}
use node_raft_rsm.Core.Step.{
  assert_invariants, make_ready, publish, conclude, dispatch, begin, step_beside, step, advance,
}
use node_raft_rsm.Core.Closure.{Closed, After, dispatch_Done}

-- The sender has cast its vote in the message's term, and for the message's recipient.
abbrev pub Grants : RaftCore → RaftMessage → Type 0
Grants c (request_vote_response m) = m.vote_granted ≡ true → c.voted_for ≡ some m.base.to
Grants c m = Unit {0}

-- Two objects that agree on all that elections are about.
pub record SameVotes (c d : RaftCore) : Type 0 where
  pub id : d.node_id ≡ c.node_id
  pub members : d.members ≡ c.members
  pub term : d.current_term ≡ c.current_term
  pub vote : d.voted_for ≡ c.voted_for
  pub role : d.role ≡ c.role
  pub votes : d.votes ≡ c.votes

pub SameVotes-refl : (c : RaftCore) → SameVotes c c
SameVotes-refl c = record {
  id = refl;
  members = refl;
  term = refl;
  vote = refl;
  role = refl;
  votes = refl;
}

SameVotes-trans : {c d e : RaftCore} → SameVotes c d → SameVotes d e → SameVotes c e
SameVotes-trans p q = record {
  id = q.id ∙ p.id;
  members = q.members ∙ p.members;
  term = q.term ∙ p.term;
  vote = q.vote ∙ p.vote;
  role = q.role ∙ p.role;
  votes = q.votes ∙ p.votes;
}

resolve_conflict-SameVotes :
    (e : LogEntry) (a : Appending) → SameVotes a.core (resolve_conflict e a).1.core
unfolding resolve_conflict
resolve_conflict-SameVotes e a = record {
  id = ground arith;
  members = ground arith;
  term = ground arith;
  vote = ground arith;
  role = ground arith;
  votes = ground arith;
}

extend_log-SameVotes : (e : LogEntry) (a : Appending) → SameVotes a.core (extend_log e a).1.core
unfolding extend_log
extend_log-SameVotes e a = record {
  id = ground arith;
  members = ground arith;
  term = ground arith;
  vote = ground arith;
  role = ground arith;
  votes = ground arith;
}

proceed-SameVotes :
    (r : Result Error Unit) (k : Exec Error Appending Unit) (a : Appending)
    → ((x : Appending) → SameVotes x.core (k x).1.core)
    → SameVotes a.core (proceed r (λ _. k) a).1.core
proceed-SameVotes (ok _) k a h = h a
proceed-SameVotes (err e) k a h = SameVotes-refl a.core

pub append_entries-SameVotes :
    (es : List LogEntry) (a : Appending) → SameVotes a.core (append_entries es a).1.core
unfolding append_entries
append_entries-SameVotes [] a = SameVotes-refl a.core
append_entries-SameVotes (e ∷ es) a = SameVotes-trans (resolve_conflict-SameVotes e a) (
    proceed-SameVotes (resolve_conflict e a).0 (extend_log e >> append_entries es) _ (λ x.
      SameVotes-trans (extend_log-SameVotes e x)
        (proceed-SameVotes (extend_log e x).0 (append_entries es) _ (append_entries-SameVotes es))))

-- What every message of a step says of the node that sends it.
pub record Stamped (c : RaftCore) (m : RaftMessage) : Type 0 where
  pub sender : (base_of m).from ≡ c.node_id
  pub current : (base_of m).term ≡ c.current_term
  pub voted : Grants c m

Stamped-mono :
    (c d : RaftCore) (m : RaftMessage)
    → d.node_id ≡ c.node_id
    → d.current_term ≡ c.current_term
    → ((v : NodeId) → c.voted_for ≡ some v → d.voted_for ≡ some v)
    → Stamped c m
    → Stamped d m
Stamped-mono c d (request_vote_response m) i t k p = record {
  sender = p.sender ∙ sym i;
  current = p.current ∙ sym t;
  voted = λ g. k m.base.to (p.voted g);
}
Stamped-mono c d m i t k p = record {
  sender = p.sender ∙ sym i;
  current = p.current ∙ sym t;
  voted = tt;
}

All-Stamped-mono :
    (c d : RaftCore) (ms : List RaftMessage)
    → d.node_id ≡ c.node_id
    → d.current_term ≡ c.current_term
    → ((v : NodeId) → c.voted_for ≡ some v → d.voted_for ≡ some v)
    → All (Stamped c) ms
    → All (Stamped d) ms
All-Stamped-mono c d [] i t k a = tt
All-Stamped-mono c d (m ∷ ms) i t k a =
    (Stamped-mono c d m i t k a.0, All-Stamped-mono c d ms i t k a.1)

All-Stamped-none : (c : RaftCore) (ms : List RaftMessage) → ms ≡ [] → All (Stamped c) ms
All-Stamped-none c [] e = tt
All-Stamped-none c (m ∷ ms) e = cc

-- The messages that a step hands to the runtime: none if it throws or has nothing to do.
abbrev pub sent_by : Result Error (Option RaftReady) → List RaftMessage
sent_by (ok none) = []
sent_by (ok (some r)) = r.outbound_messages
sent_by (err e) = []

-- What is left of a step: the object, and the messages to send.
abbrev pub outcome : Result Error (Option RaftReady) × RaftCore → State
outcome r = record { core = r.1; effects = record no_effects { messages = sent_by r.0 } }

make_ready-SameVotes : (s : State) → SameVotes s.core (make_ready s).1
unfolding make_ready
make_ready-SameVotes s = record {
  id = ground arith;
  members = ground arith;
  term = ground arith;
  vote = ground arith;
  role = ground arith;
  votes = ground arith;
}

pub advance-SameVotes : (ready : ℕ) (c : RaftCore) → SameVotes c (advance ready c).1
unfolding advance
advance-SameVotes ready c = record {
  id = ground arith;
  members = ground arith;
  term = ground arith;
  vote = ground arith;
  role = ground arith;
  votes = ground arith;
}

make_ready-messages : (s : State) → sent_by (ok (make_ready s).0) ≡ s.effects.messages
unfolding make_ready
make_ready-messages s = ground arith

module _ (Known : NodeId → ℕ → NodeId → Type 0) where
  -- The votes that a candidate or leader has counted.
  pub record Tally (c : RaftCore) : Type 0 where
    pub stands : c.voted_for ≡ some c.node_id
    pub cast : All (λ v. Known v c.current_term c.node_id ⊎ (v ≡ c.node_id)) c.votes
    pub members : Within c.votes c.members
    pub single : distinct c.votes ≡ true

  pub record Tallied (c : RaftCore) : Type 0 where
    pub tally : c.role ≢ follower → Tally c
    pub quorum : c.role ≡ leader → has_quorum c (length c.votes) ≡ true

  -- What a step keeps, from the object `b` that it started with.
  pub record Voting (b : RaftCore) (s : State) : Type 0 where
    pub same_id : s.core.node_id ≡ b.node_id
    pub same_members : s.core.members ≡ b.members
    pub term_grows : b.current_term ≤ s.core.current_term
    pub vote_kept :
        (v : NodeId)
        → s.core.current_term ≡ b.current_term
        → b.voted_for ≡ some v
        → s.core.voted_for ≡ some v
    pub tallied : Tallied s.core
    pub stamped : All (Stamped s.core) s.effects.messages

  -- What is used of a message that the node accepts.
  abbrev pub Counts : RaftCore → RaftMessage → Type 0
  Counts b (request_vote_response m) =
      (has m.base.from b.members ≡ true)
      × (m.vote_granted ≡ true → Known m.base.from m.base.term b.node_id)
  Counts b m = Unit {0}

  module _ (b : RaftCore) (own : has b.node_id b.members ≡ true) where
    abbrev Kept : State → Type 0
    Kept = Voting b

    send-Voting : (m : RaftMessage) (s : State) → Kept s → Stamped s.core m → Kept (send m s)
    send-Voting m s v p = record {
      same_id = v.same_id;
      same_members = v.same_members;
      term_grows = v.term_grows;
      vote_kept = v.vote_kept;
      tallied = v.tallied;
      stamped = All-snoc (Stamped s.core) s.effects.messages m v.stamped p;
    }

    take_office-Voting :
        (s : State)
        → s.core.role ≡ candidate
        → has_quorum s.core (length s.core.votes) ≡ true
        → Kept s
        → Kept (take_office s)
    unfolding has_quorum
    take_office-Voting s r q v = record {
      same_id = v.same_id;
      same_members = v.same_members;
      term_grows = v.term_grows;
      vote_kept = v.vote_kept;
      tallied = record {
        tally = λ _.
            let t = v.tallied.tally (λ e. ground arith) in
            record { stands = t.stands; cast = t.cast; members = t.members; single = t.single };
        quorum = λ _. q;
      };
      stamped = All-Stamped-mono s.core _ s.effects.messages refl refl (λ _ e. e) v.stamped;
    }

    stand-Voting : (s : State) → s.effects.messages ≡ [] → Kept s → Kept (stand s)
    stand-Voting s quiet v = record {
      same_id = v.same_id;
      same_members = v.same_members;
      term_grows = omega (arith, v.term_grows);
      vote_kept = λ w t h. absurd (omega (arith, v.term_grows));
      tallied = record {
        tally = λ _. record {
          stands = refl;
          cast = (inr refl, tt);
          members = (rw (v.same_id, v.same_members) own, tt);
          single = refl;
        };
        quorum = λ e. ground arith;
      };
      stamped = All-Stamped-none _ s.effects.messages quiet;
    }

    adopted-vote-Kept :
        (term : ℕ) (id : Option NodeId) (s : State)
        → Kept s
        → s.core.current_term ≤ term
        → (w : NodeId) → (become_follower term id s).core.current_term ≡ b.current_term
        → b.voted_for ≡ some w
        → (become_follower term id s).core.voted_for ≡ some w
    unfolding become_follower
    adopted-vote-Kept term id s v h w e x = ground (arith, v.vote_kept w, v.term_grows)

    become_follower-fields :
        (term : ℕ) (id : Option NodeId) (s : State)
        → ((become_follower term id s).core.node_id ≡ s.core.node_id)
          × ((become_follower term id s).core.members ≡ s.core.members)
          × (s.core.current_term ≤ (become_follower term id s).core.current_term)
          × ((become_follower term id s).core.role ≡ follower)
          × ((become_follower term id s).effects.messages ≡ s.effects.messages)
    unfolding become_follower
    become_follower-fields term id s = ground arith

    become_follower-Voting :
        (term : ℕ) (id : Option NodeId) (s : State)
        → s.effects.messages ≡ []
        → s.core.current_term ≤ term
        → Kept s
        → Kept (become_follower term id s)
    become_follower-Voting term id s quiet h v =
        let (i, m, t, r, q) = become_follower-fields term id s in
        record {
          same_id = i ∙ v.same_id;
          same_members = m ∙ v.same_members;
          term_grows = omega (arith, v.term_grows, t);
          vote_kept = adopted-vote-Kept term id s v h;
          tallied = record { tally = λ e. absurd (e r); quorum = λ e. cc };
          stamped = All-Stamped-none _ _ (q ∙ quiet);
        }

    cast_vote-Voting :
        (m : RequestVoteRequest) (s : State)
        → grants m s.core ≡ true
        → Kept s
        → Kept (cast_vote m.base.from s)
    cast_vote-Voting m s g v = record {
      same_id = v.same_id;
      same_members = v.same_members;
      term_grows = v.term_grows;
      vote_kept = λ w e x. ground (arith, v.vote_kept w e x);
      tallied = record { tally = λ e. absurd (e refl); quorum = λ e. cc };
      stamped =
          All-Stamped-mono s.core _ s.effects.messages refl refl (λ w e. ground arith) v.stamped;
    }

    add_vote-Voting :
        (m : RequestVoteResponse) (s : State)
        → Counts b (request_vote_response m)
        → s.core.role ≡ candidate
        → m.base.term ≡ s.core.current_term
        → m.vote_granted ≡ true
        → Kept s
        → Kept (add_vote m.base.from s)
    add_vote-Voting m s k r t g v = elim (Bool-cases (has m.base.from s.core.votes)) [
      | inl e ↦ rw e v
      | inr e ↦
          let tally = v.tallied.tally (λ f. ground arith) in
          rw e (record {
            same_id = v.same_id;
            same_members = v.same_members;
            term_grows = v.term_grows;
            vote_kept = v.vote_kept;
            tallied = record {
              tally = λ _. record {
                stands = tally.stands;
                cast =
                    All-snoc
                      (λ w. Known w s.core.current_term s.core.node_id ⊎ (w ≡ s.core.node_id))
                      s.core.votes m.base.from tally.cast (inl (rw (← t, v.same_id) (k.1 g)));
                members =
                    Within-add s.core.votes s.core.members m.base.from tally.members
                      (rw v.same_members k.0);
                single = distinct-add s.core.votes m.base.from tally.single e;
              };
              quorum = λ f. ground arith;
            };
            stamped = All-Stamped-mono s.core _ s.effects.messages refl refl (λ _ e. e) v.stamped;
          })
    ]

    SameVotes-Voting :
        (s t : State)
        → SameVotes s.core t.core
        → t.effects.messages ≡ s.effects.messages
        → Kept s
        → Kept t
    unfolding has_quorum
    SameVotes-Voting s t e m v = record {
      same_id = e.id ∙ v.same_id;
      same_members = e.members ∙ v.same_members;
      term_grows = omega (arith, v.term_grows, e.term);
      vote_kept = λ w h x. e.vote ∙ v.vote_kept w (sym e.term ∙ h) x;
      tallied = record {
        tally = λ f.
            let tally = v.tallied.tally (λ g. f (e.role ∙ g)) in
            record {
              stands = e.vote ∙ tally.stands ∙ ap some (sym e.id);
              cast = rw (e.votes, e.term, e.id) tally.cast;
              members = rw (e.votes, e.members) tally.members;
              single = rw e.votes tally.single;
            };
        quorum = λ f. rw (e.members, e.votes) (v.tallied.quorum (sym e.role ∙ f));
      };
      stamped = rw m (
          All-Stamped-mono s.core t.core s.effects.messages e.id e.term (λ w x. e.vote ∙ x)
            v.stamped);
    }

    append_local-SameVotes :
        (type : EntryType) (payload : Bytes) (id : Option Text) (s : State)
        → SameVotes s.core (append_local type payload id s).core
          × ((append_local type payload id s).effects.messages ≡ s.effects.messages)
    unfolding append_local
    append_local-SameVotes type payload id s = (
      record { id = refl; members = refl; term = refl; vote = refl; role = refl; votes = refl },
      refl,
    )

    set_commit-SameVotes : (i : ℕ) (s : State) → SameVotes s.core (set_commit (some i) s).1.core
    set_commit-SameVotes i s = record {
      id = refl;
      members = refl;
      term = refl;
      vote = refl;
      role = refl;
      votes = refl;
    }

    set_progress-SameVotes :
        (id : NodeId) (p : PeerProgress) (s : State) → SameVotes s.core (set_progress id p s).core
    set_progress-SameVotes id p s = record {
      id = refl;
      members = refl;
      term = refl;
      vote = refl;
      role = refl;
      votes = refl;
    }

    append_result :
        (es : List LogEntry) (s : State)
        → SameVotes s.core
            (append_entries es
              (record { core = s.core; truncate_from = none; appended = [] })).1.core
        → SameVotes s.core (append_all es s).1.core
          × ((append_all es s).1.effects.messages ≡ s.effects.messages)
    unfolding append_all
    append_result es s e =
        elim (Result-cases
          (append_entries es (record { core = s.core; truncate_from = none; appended = [] })).0) [
            | inl x ↦ rw (x.1, append_all) (e, refl)
            | inr x ↦ rw (x.1, append_all) (e, refl)
          ]

    append_all-SameVotes :
        (es : List LogEntry) (s : State)
        → SameVotes s.core (append_all es s).1.core
          × ((append_all es s).1.effects.messages ≡ s.effects.messages)
    unfolding append_all
    append_all-SameVotes es s =
        let start : Appending = record { core = s.core; truncate_from = none; appended = [] } in
        append_result es s (append_entries-SameVotes es start)

    learn_commit-SameVotes :
        (n : ℕ) (s : State)
        → SameVotes s.core (learn_commit n s).core
          × ((learn_commit n s).effects.messages ≡ s.effects.messages)
    unfolding learn_commit
    learn_commit-SameVotes n s = (
      record {
        id = ground arith;
        members = ground arith;
        term = ground arith;
        vote = ground arith;
        role = ground arith;
        votes = ground arith;
      },
      ground arith,
    )

    After-any : (r : Result Error Unit) (s : State) → Kept s → After (Counts b) Kept (λ _. Kept) r s
    After-any (ok _) s v = v
    After-any (err e) s v = v

    Voting-Closed : Closed (Counts b) Kept (λ _. Kept)
    unfolding append_request
    Voting-Closed = record {
      append_locally = λ type payload id s r v.
          let (e, q) = append_local-SameVotes type payload id s in SameVotes-Voting s _ e q v;
      send_append = λ peer p s r h v.
          send-Voting _ s v (record { sender = refl; current = refl; voted = tt });
      commit = λ index s r h v.
          SameVotes-Voting s (set_commit (some index) s).1 (set_commit-SameVotes index s) refl v;
      take = take_office-Voting;
      stands = λ s quiet r v. stand-Voting s quiet.0 v;
      send_vote_request =
          λ peer s r w v. send-Voting _ s v (record { sender = refl; current = refl; voted = tt });
      follow = λ term id s quiet h new v. become_follower-Voting term id s quiet.0 h v;
      grant = λ m s k quiet g v.
          send-Voting _ _ (cast_vote-Voting m s g v)
            (record { sender = refl; current = refl; voted = λ _. refl });
      refuse =
          λ m s g v. send-Voting _ s v (record { sender = refl; current = refl; voted = λ f. cc });
      count = add_vote-Voting;
      respond = λ to success matched hint s v.
          send-Voting _ s v (record { sender = refl; current = refl; voted = tt });
      append = λ m s k quiet f h v.
          let (e, q) = append_all-SameVotes m.entries s in
          After-any (append_all m.entries s).0 (append_all m.entries s).1
            (SameVotes-Voting s _ e q v);
      learn = λ n s v. let (e, q) = learn_commit-SameVotes n s in SameVotes-Voting s _ e q v;
      progresses = λ m p s k h v.
          SameVotes-Voting s (set_progress m.base.from (acknowledged m p) s)
            (set_progress-SameVotes m.base.from (acknowledged m p) s) refl v;
      backs_up = λ m p s k h v.
          SameVotes-Voting s (set_progress m.base.from (backed_up m p) s)
            (set_progress-SameVotes m.base.from (backed_up m p) s) refl v;
      missing = λ peer s r h e v. v;
    }

    quiet-Voting : (s : State) (d : RaftCore) → SameVotes s.core d → Kept s → Kept (begin d)
    quiet-Voting s d e v = SameVotes-Voting (begin s.core) (begin d) e refl (record {
      same_id = v.same_id;
      same_members = v.same_members;
      term_grows = v.term_grows;
      vote_kept = v.vote_kept;
      tallied = v.tallied;
      stamped = tt;
    })

    publish-Voting : (r : Result Error Unit) (s : State) → Kept s → Kept (outcome (publish r s))
    publish-Voting (ok _) s v =
        SameVotes-Voting s (outcome (publish (ok tt) s)) (make_ready-SameVotes s)
          (make_ready-messages s) v
    publish-Voting (err e) s v = quiet-Voting s s.core (SameVotes-refl s.core) v

    conclude-Voting :
        (r : Result Error Unit) (s : State)
        → After (Counts b) Kept (λ _. Kept) r s
        → Kept (outcome (conclude r s))
    conclude-Voting (ok _) s v = publish-Voting (assert_invariants s.core) s v
    conclude-Voting (err e) s v = quiet-Voting s s.core (SameVotes-refl s.core) v

    begin-Voting : Tallied b → Kept (begin b)
    begin-Voting t = record {
      same_id = refl;
      same_members = refl;
      term_grows = omega arith;
      vote_kept = λ v e h. h;
      tallied = t;
      stamped = tt;
    }

    step_beside-Voting :
        (outstanding : Option RaftReady) (event : RaftEvent)
        → ((m : RaftMessage) → event ≡ message m → addressed m b ≡ true → Counts b m)
        → Tallied b
        → Kept (outcome (step_beside outstanding event b))
    unfolding step_beside
    step_beside-Voting (some _) event g t = begin-Voting t
    step_beside-Voting none event g t =
        conclude-Voting (dispatch event (begin b)).0 (dispatch event (begin b)).1 (
          dispatch_Done (Counts b) Kept (λ _. Kept) Voting-Closed event (begin b)
            (record {
              rejected = λ m e h. begin-Voting t;
              unproposed = λ id payload e h. begin-Voting t;
            })
            g (refl, refl, refl) (begin-Voting t))

    -- A step keeps the node's vote within a term, and its tally sound, on every branch and throw.
    pub step-Voting :
        (event : RaftEvent)
        → ((m : RaftMessage) → event ≡ message m → addressed m b ≡ true → Counts b m)
        → Tallied b
        → Kept (outcome (step event b))
    unfolding step
    step-Voting event = step_beside-Voting b.outstanding event
