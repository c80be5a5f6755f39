-- ===== src/Core/Closure.antt =====
-- How `dispatch` is made of small changes. `P` holds before and after each; where one throws an
-- error `e`, `E e` is left. `Received` is what is known of the message being handled.
use node_raft_rsm.Base.{
  ℕ, ◌+◌, ◌-◌, ◌≤◌, ◌<◌, ◌⊎◌, ◌≡◌, refl, ◌∙◌, inl, inr, Bool, true, false, ◌&&◌, ◌||◌, not, Text,
  Bytes, same_refl, has, Within, get, put, get-put, last?, length, leb, ltb, ◌==◌, Option, none,
  some, List, [], ◌∷◌, Result, ok, err, proceed, ◌>>◌, modify, when, arith, Bool-cases,
  Option-cases,
}
use node_raft_rsm.Types.{
  NodeId, Role, follower, candidate, leader, EntryType, command, noop, RequestVoteRequest,
  RequestVoteResponse, AppendEntriesRequest, AppendEntriesResponse, RaftMessage,
  request_vote_request, request_vote_response, append_entries_request, append_entries_response,
  base_of, RaftEvent, election_timeout, heartbeat_timeout, message, propose,
}
use node_raft_rsm.Core.State.{
  PeerProgress, RaftCore, State, Error, missing_progress, Action, send, term_at, last_log_index,
  peers, has_quorum,
}
use node_raft_rsm.Core.Leader.{
  append_local, append_request, push_append_for, append_to, broadcast_append, quorum_index,
  set_commit, is_leader, is_term, advance_leader_commit, take_office, commit_silently,
  become_leader,
}
use node_raft_rsm.Core.Handlers.{
  stand, vote_request, request_votes, lead_with_quorum, start_election, become_follower, grants,
  cast_vote, vote_response, handle_vote_request, add_vote, is_candidate, handle_vote_response,
  append_response, append_all, match_of, learn_commit, accept_append, handle_current_append,
  handle_append_request, set_progress, acknowledged, backed_up, after_acknowledge,
  respond_to_progress, handle_append_response, handle_kind, observe_term, addressed, check_envelope,
  handle_message,
}
use node_raft_rsm.Core.Step.{check_proposal, handle_propose, dispatch}

pub addressed_of :
    (m : RaftMessage) (c : RaftCore) → check_envelope m c ≡ none → addressed m c ≡ true
addressed_of m c h = ground arith

leader_of_proposal :
    (id : Text) (payload : Bytes) (c : RaftCore)
    → check_proposal id payload c ≡ none
    → c.role ≡ leader
leader_of_proposal id payload c h = ground arith

-- Nothing has been handed to the effects that a follower's answer could follow.
abbrev pub Quiet : State → Type 0
Quiet s = (s.effects.messages ≡ []) × (s.effects.truncate_from ≡ none) × (s.effects.entries ≡ [])

become_follower-Quiet :
    (term : ℕ) (id : Option NodeId) (s : State) → Quiet s → Quiet (become_follower term id s)
unfolding become_follower
become_follower-Quiet term id s q = (ground arith, ground arith, ground arith)

become_follower_role :
    (term : ℕ) (id : Option NodeId) (s : State) → (become_follower term id s).core.role ≡ follower
unfolding become_follower
become_follower_role term id s = ground arith

observe_term-Quiet : (term : ℕ) (s : State) → Quiet s → Quiet (observe_term term s)
observe_term-Quiet term s q = elim (Bool-cases (ltb s.core.current_term term)) [
  | inl e ↦ rw e (become_follower-Quiet term none s q)
  | inr e ↦ rw e q
]

core-push_append_for : (peer : NodeId) (s : State) → (push_append_for peer s).1.core ≡ s.core
unfolding push_append_for
core-push_append_for peer s = ground arith

core-append_to : (ps : List NodeId) (s : State) → (append_to ps s).1.core ≡ s.core
unfolding append_to
core-append_to [] s = refl
core-append_to (peer ∷ rest) s =
    core-proceed (push_append_for peer s).0 (append_to rest) _ (core-append_to rest)
    ∙ core-push_append_for peer s
  where
    core-proceed :
        (r : Result Error Unit) (k : Action Unit) (t : State)
        → ((u : State) → (k u).1.core ≡ u.core)
        → (proceed r (λ _. k) t).1.core ≡ t.core
    core-proceed (ok _) k t h = h t
    core-proceed (err e) k t h = refl

core-when_broadcast : (b : Bool) (s : State) → (when b broadcast_append s).1.core ≡ s.core
unfolding broadcast_append
core-when_broadcast true s = core-append_to (peers s.core) s
core-when_broadcast false s = refl

role-advance : (s : State) → (advance_leader_commit s).1.core.role ≡ s.core.role
unfolding advance_leader_commit
role-advance s = ground arith

progress-advance : (s : State) → (advance_leader_commit s).1.core.progress ≡ s.core.progress
unfolding advance_leader_commit
progress-advance s = ground arith

All-has_self :
    (xs ys : List NodeId) → ((x : NodeId) → has x xs ≡ true → has x ys ≡ true) → Within xs ys
All-has_self [] ys h = tt
All-has_self (x ∷ xs) ys h =
    (h x (ground (arith, same_refl x)), All-has_self xs ys (λ y k. h y (ground (arith, k))))

Within-self : (xs : List NodeId) → Within xs xs
Within-self xs = All-has_self xs xs (λ x h. h)

is_leader_eq : (r : Role) → is_leader r ≡ true → r ≡ leader
is_leader_eq r h = ground arith

module _ (Received : RaftMessage → Type 0) (P : State → Type 0) (E : Error → State → Type 0) where
  abbrev pub After : Result Error Unit → State → Type 0
  After (ok _) s = P s
  After (err e) s = E e s

  -- The leader of the term has sent a message that is being handled.
  abbrev pub Current : ℕ → Type 0
  Current term =
      (m : AppendEntriesRequest) × Received (append_entries_request m) × (m.base.term ≡ term)

  pub record Closed : Type 0 where
    pub append_locally :
        (type : EntryType) (payload : Bytes) (id : Option Text) (s : State)
        → s.core.role ≡ leader
        → P s
        → P (append_local type payload id s)
    pub send_append :
        (peer : NodeId) (p : PeerProgress) (s : State)
        → s.core.role ≡ leader
        → get s.core.progress peer ≡ some p
        → P s
        → P (send (append_entries_request (append_request s.core peer p)) s)
    pub commit :
        (index : ℕ) (s : State)
        → s.core.role ≡ leader
        → quorum_index s.core (last_log_index s.core - s.core.commit_index) ≡ some index
        → P s
        → P (set_commit (some index) s).1
    pub take :
        (s : State)
        → s.core.role ≡ candidate
        → has_quorum s.core (length s.core.votes) ≡ true
        → P s
        → P (take_office s)
    pub stands : (s : State) → Quiet s → is_leader s.core.role ≡ false → P s → P (stand s)
    pub send_vote_request :
        (peer : NodeId) (s : State)
        → s.core.role ≡ candidate
        → has peer (peers s.core) ≡ true
        → P s
        → P (send (vote_request s.core peer) s)
    pub follow :
        (term : ℕ) (id : Option NodeId) (s : State)
        → Quiet s
        → s.core.current_term ≤ term
        → (s.core.current_term < term) ⊎ Current term
        → P s
        → P (become_follower term id s)
    pub grant :
        (m : RequestVoteRequest) (s : State)
        → Received (request_vote_request m)
        → Quiet s
        → grants m s.core ≡ true
        → P s
        → P (
            send
              (vote_response (cast_vote m.base.from s).core m.base.from true)
              (cast_vote m.base.from s))
    pub refuse :
        (m : RequestVoteRequest) (s : State)
        → grants m s.core ≡ false
        → P s
        → P (send (vote_response s.core m.base.from false) s)
    pub count :
        (m : RequestVoteResponse) (s : State)
        → Received (request_vote_response m)
        → s.core.role ≡ candidate
        → m.base.term ≡ s.core.current_term
        → m.vote_granted ≡ true
        → P s
        → P (add_vote m.base.from s)
    pub respond :
        (to : NodeId) (success : Bool) (matched hint : ℕ) (s : State)
        → P s
        → P (send (append_response s.core to success matched hint) s)
    pub append :
        (m : AppendEntriesRequest) (s : State)
        → Received (append_entries_request m)
        → Quiet s
        → s.core.role ≡ follower
        → is_term (term_at s.core m.prev_log_index) m.prev_log_term ≡ true
        → P s
        → After (append_all m.entries s).0 (append_all m.entries s).1
    pub learn : (commit : ℕ) (s : State) → P s → P (learn_commit commit s)
    pub progresses :
        (m : AppendEntriesResponse) (p : PeerProgress) (s : State)
        → Received (append_entries_response m)
        → get s.core.progress m.base.from ≡ some p
        → P s
        → P (set_progress m.base.from (acknowledged m p) s)
    pub backs_up :
        (m : AppendEntriesResponse) (p : PeerProgress) (s : State)
        → Received (append_entries_response m)
        → get s.core.progress m.base.from ≡ some p
        → P s
        → P (set_progress m.base.from (backed_up m p) s)
    pub missing :
        (peer : NodeId) (s : State)
        → s.core.role ≡ leader
        → has peer (peers s.core) ≡ true
        → get s.core.progress peer ≡ none
        → P s
        → E missing_progress s

  -- What is left where the guards of `dispatch` refuse an event, in the state that it began with.
  pub record Refuses (s : State) : Type 0 where
    pub rejected : (m : RaftMessage) (e : Error) → check_envelope m s.core ≡ some e → E e s
    pub unproposed :
        (id : Text) (payload : Bytes) (e : Error)
        → check_proposal id payload s.core ≡ some e
        → E e s

  abbrev Done : Result Error Unit × State → Type 0
  Done r = After r.0 r.1

  After-proceed :
      (r : Result Error Unit) (k : Action Unit) (t : State)
      → After r t
      → (P t → Done (k t))
      → Done (proceed r (λ _. k) t)
  After-proceed (ok _) k t a h = h a
  After-proceed (err e) k t a h = a

  Done-when :
      (b : Bool) (m : Action Unit) (s : State) → (b ≡ true → Done (m s)) → P s → Done (when b m s)
  Done-when true m s h p = h refl
  Done-when false m s h p = p

  module _ (c : Closed) where
    push_known :
        (peer : NodeId) (q : PeerProgress) (s : State)
        → s.core.role ≡ leader
        → get s.core.progress peer ≡ some q
        → P s
        → Done (push_append_for peer s)
    unfolding push_append_for
    push_known peer q s r e p = rw (e, push_append_for) (c.send_append peer q s r e p)

    append_to-Done :
        (ps : List NodeId) (s : State)
        → s.core.role ≡ leader
        → Within ps (peers s.core)
        → P s
        → Done (append_to ps s)
    unfolding append_to push_append_for
    append_to-Done [] s r w p = p
    append_to-Done (peer ∷ rest) s r w p = elim (Option-cases (get s.core.progress peer)) [
      | inl e ↦ rw (e, push_append_for) (c.missing peer s r w.0 e p)
      | inr (q, e) ↦
          rw (e, push_append_for) (append_to-Done rest _ r w.1 (c.send_append peer q s r e p))
    ]

    broadcast_Done : (s : State) → s.core.role ≡ leader → P s → Done (broadcast_append s)
    unfolding broadcast_append
    broadcast_Done s r p = append_to-Done (peers s.core) s r (Within-self (peers s.core)) p

    advance_keeps : (s : State) → P s → P (advance_leader_commit s).1
    unfolding advance_leader_commit
    advance_keeps s p = elim (Bool-cases (is_leader s.core.role)) [
      | inr e ↦ rw e p
      | inl e ↦
          elim (Option-cases (quorum_index s.core (last_log_index s.core - s.core.commit_index))) [
            | inl n ↦ rw (e, n) p
            | inr (i, n) ↦ rw (e, n) (c.commit i s (is_leader_eq s.core.role e) n p)
          ]
    ]

    announce_Done :
        (s : State) → s.core.role ≡ leader → P s → Done ((broadcast_append >> commit_silently) s)
    announce_Done s r p =
        After-proceed (broadcast_append s).0 commit_silently (broadcast_append s).1
          (broadcast_Done s r p) (advance_keeps _)

    become_leader-Done :
        (s : State)
        → s.core.role ≡ candidate
        → has_quorum s.core (length s.core.votes) ≡ true
        → P s
        → Done (become_leader s)
    unfolding become_leader append_local
    become_leader-Done s r q p =
        announce_Done (append_local noop [] none (take_office s)) refl
          (c.append_locally noop [] none (take_office s) refl (c.take s r q p))

    lead_with_quorum-Done : (s : State) → s.core.role ≡ candidate → P s → Done (lead_with_quorum s)
    unfolding lead_with_quorum
    lead_with_quorum-Done s r p =
        Done-when (has_quorum s.core (length s.core.votes)) become_leader s
          (λ q. become_leader-Done s r q p) p

    request_votes_keeps :
        (ps : List NodeId) (s : State)
        → s.core.role ≡ candidate
        → Within ps (peers s.core)
        → P s
        → (P (request_votes ps s)) × ((request_votes ps s).core ≡ s.core)
    unfolding request_votes
    request_votes_keeps [] s r w p = (p, refl)
    request_votes_keeps (peer ∷ rest) s r w p =
        request_votes_keeps rest _ r w.1 (c.send_vote_request peer s r w.0 p)

    start_election-Done :
        (s : State) → Quiet s → is_leader s.core.role ≡ false → P s → Done (start_election s)
    unfolding start_election
    start_election-Done s quiet r p =
        let (kept, same_core) =
          request_votes_keeps (peers s.core) (stand s) refl (Within-self (peers s.core))
            (c.stands s quiet r p) in
        lead_with_quorum-Done _ (rw same_core) kept

    handle_vote_request_keeps :
        (m : RequestVoteRequest) (s : State)
        → Received (request_vote_request m)
        → Quiet s
        → P s
        → P (handle_vote_request m s)
    unfolding handle_vote_request
    handle_vote_request_keeps m s g quiet p = elim (Bool-cases (grants m s.core)) [
      | inl e ↦ rw e (c.grant m s g quiet e p)
      | inr e ↦ rw e (c.refuse m s e p)
    ]

    role-add_vote : (from : NodeId) (s : State) → (add_vote from s).core.role ≡ s.core.role
    role-add_vote from s = ground arith

    handle_vote_response-Done :
        (m : RequestVoteResponse) (s : State)
        → Received (request_vote_response m)
        → P s
        → Done (handle_vote_response m s)
    unfolding handle_vote_response
    handle_vote_response-Done m s g p =
        elim (Bool-cases
          (is_candidate s.core.role && (m.base.term == s.core.current_term && m.vote_granted))) [
            | inl e ↦
                let r : s.core.role ≡ candidate = ground arith in
                rw e (
                  lead_with_quorum-Done (add_vote m.base.from s) (rw role-add_vote r)
                    (c.count m s g r (ground arith) (ground arith) p))
            | inr e ↦ rw e p
          ]

    accept_append_keeps : (m : AppendEntriesRequest) (s : State) → P s → P (accept_append m s)
    accept_append_keeps m s p =
        c.respond m.base.from true (match_of (last? m.entries) m.prev_log_index) _ _
          (c.learn m.leader_commit s p)

    handle_current_append-Done :
        (m : AppendEntriesRequest) (s : State)
        → Received (append_entries_request m)
        → Quiet s
        → s.core.role ≡ follower
        → P s
        → Done (handle_current_append m s)
    unfolding handle_current_append
    handle_current_append-Done m s g quiet f p =
        elim (Bool-cases (is_term (term_at s.core m.prev_log_index) m.prev_log_term)) [
          | inl e ↦ rw e (
              After-proceed (append_all m.entries s).0 (modify (accept_append m))
                (append_all m.entries s).1 (c.append m s g quiet f e p) (accept_append_keeps m _))
          | inr e ↦ rw e (c.respond m.base.from false 0 _ s p)
        ]

    handle_append_request-Done :
        (m : AppendEntriesRequest) (s : State)
        → Received (append_entries_request m)
        → Quiet s
        → P s
        → Done (handle_append_request m s)
    unfolding handle_append_request
    handle_append_request-Done m s g quiet p =
        elim (Bool-cases (ltb m.base.term s.core.current_term)) [
          | inl e ↦ rw e (c.respond m.base.from false 0 (last_log_index s.core + 1) s p)
          | inr e ↦ rw e (
              handle_current_append-Done m _ g
                (become_follower-Quiet m.base.term (some m.base.from) s quiet)
                (become_follower_role m.base.term (some m.base.from) s)
                (c.follow m.base.term (some m.base.from) s quiet (ground arith) (inr (m, g, refl))
                  p))
        ]

    after_acknowledge-Done :
        (peer : NodeId) (q : PeerProgress) (next : ℕ) (s : State)
        → s.core.role ≡ leader
        → get s.core.progress peer ≡ some q
        → P s
        → Done (after_acknowledge peer next s)
    unfolding after_acknowledge
    after_acknowledge-Done peer q next s r e p =
        let (advanced, t) = advance_leader_commit s in
        let kept = advance_keeps s p in
        After-proceed (when advanced broadcast_append t).0
          (λ u. when (leb next (last_log_index u.core)) (push_append_for peer) u)
          (when advanced broadcast_append t).1
          (Done-when advanced broadcast_append t (λ _. broadcast_Done t (role-advance s ∙ r) kept)
            kept)
          (λ h.
            Done-when _ (push_append_for peer) (when advanced broadcast_append t).1
              (λ _.
                push_known peer q (when advanced broadcast_append t).1
                  (rw (core-when_broadcast advanced t, role-advance s) r)
                  (rw (core-when_broadcast advanced t, progress-advance s) e) h)
              h)

    get_own :
        (m : List (NodeId × PeerProgress)) (k : NodeId) (p : PeerProgress)
        → get (put m k p) k ≡ some p
    get_own m k p = ground (arith, get-put m k k p)

    respond_to_progress-Done :
        (m : AppendEntriesResponse) (s : State)
        → Received (append_entries_response m)
        → s.core.role ≡ leader
        → P s
        → Done (respond_to_progress m (get s.core.progress m.base.from) s)
    unfolding respond_to_progress
    respond_to_progress-Done m s g r p = elim (Option-cases (get s.core.progress m.base.from)) [
      | inl n ↦ rw (n, respond_to_progress) p
      | inr (q, n) ↦ elim (Bool-cases m.success) [
        | inl e ↦
            rw (n, respond_to_progress, e)
              (after_acknowledge-Done m.base.from (acknowledged m q) _
                (set_progress m.base.from (acknowledged m q) s) r
                (get_own s.core.progress m.base.from (acknowledged m q)) (c.progresses m q s g n p))
        | inr e ↦
            rw (n, respond_to_progress, e)
              (push_known m.base.from (backed_up m q) (set_progress m.base.from (backed_up m q) s) r
                (get_own s.core.progress m.base.from (backed_up m q)) (c.backs_up m q s g n p))
      ]
    ]

    handle_append_response-Done :
        (m : AppendEntriesResponse) (s : State)
        → Received (append_entries_response m)
        → P s
        → Done (handle_append_response m s)
    unfolding handle_append_response
    handle_append_response-Done m s g p =
        elim (Bool-cases (ltb m.base.term s.core.current_term || not (is_leader s.core.role))) [
          | inl e ↦ rw e p
          | inr e ↦
              rw e (respond_to_progress-Done m s g (is_leader_eq s.core.role (ground arith)) p)
        ]

    handle_kind-Done :
        (m : RaftMessage) (s : State) → Received m → Quiet s → P s → Done (handle_kind m s)
    unfolding handle_kind
    handle_kind-Done (request_vote_request m) s g quiet p = handle_vote_request_keeps m s g quiet p
    handle_kind-Done (request_vote_response m) s g quiet p = handle_vote_response-Done m s g p
    handle_kind-Done (append_entries_request m) s g quiet p =
        handle_append_request-Done m s g quiet p
    handle_kind-Done (append_entries_response m) s g quiet p = handle_append_response-Done m s g p

    observe_term_keeps : (term : ℕ) (s : State) → Quiet s → P s → P (observe_term term s)
    observe_term_keeps term s quiet p = elim (Bool-cases (ltb s.core.current_term term)) [
      | inl e ↦ rw e (c.follow term none s quiet (ground arith) (inl (ground arith)) p)
      | inr e ↦ rw e p
    ]

    handle_message-Done :
        (m : RaftMessage) (s : State)
        → Refuses s
        → (addressed m s.core ≡ true → Received m)
        → Quiet s
        → P s
        → Done (handle_message m s)
    unfolding handle_message
    handle_message-Done m s f g quiet p = elim (Option-cases (check_envelope m s.core)) [
      | inr (e, h) ↦ rw (h, handle_message) (f.rejected m e h)
      | inl h ↦
          rw (h, handle_message)
            (handle_kind-Done m _ (g (addressed_of m s.core h))
              (observe_term-Quiet (base_of m).term s quiet)
              (observe_term_keeps (base_of m).term s quiet p))
    ]

    handle_propose-Done :
        (id : Text) (payload : Bytes) (s : State)
        → Refuses s
        → P s
        → Done (handle_propose id payload s)
    unfolding handle_propose append_local
    handle_propose-Done id payload s f p = elim (Option-cases (check_proposal id payload s.core)) [
      | inr (e, h) ↦ rw (h, handle_propose) (f.unproposed id payload e h)
      | inl h ↦
          let r = leader_of_proposal id payload s.core h in
          rw (h, handle_propose)
            (announce_Done (append_local command payload (some id) s) r
              (c.append_locally command payload (some id) s r p))
    ]

    -- Whatever a step does, returning or throwing, is made of the changes of `Closed`.
    pub dispatch_Done :
        (event : RaftEvent) (s : State)
        → Refuses s
        → ((m : RaftMessage) → event ≡ message m → addressed m s.core ≡ true → Received m)
        → Quiet s
        → P s
        → After (dispatch event s).0 (dispatch event s).1
    unfolding dispatch
    dispatch_Done (election_timeout t) s f g quiet p =
        Done-when (not (is_leader s.core.role)) start_election s
          (λ r. start_election-Done s quiet (ground arith) p) p
    dispatch_Done heartbeat_timeout s f g quiet p =
        Done-when (is_leader s.core.role) broadcast_append s
          (λ r. broadcast_Done s (is_leader_eq s.core.role r) p) p
    dispatch_Done (message m) s f g quiet p = handle_message-Done m s f (g m refl) quiet p
    dispatch_Done (propose id payload) s f g quiet p = handle_propose-Done id payload s f p
