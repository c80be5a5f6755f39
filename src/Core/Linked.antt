-- ===== src/Core/Linked.antt =====
-- A step on chains: what a node holds and sends is made of known links and of those that it makes
-- itself as the leader of its term.
use node_raft_rsm.Base.{
  All-snoc, append-nil, append_assoc, ℕ, suc, ◌+◌, ◌-◌, ◌≤◌, ◌<◌, ◌≡◌, ◌≢◌, refl, sym, ap, subst,
  ◌∙◌, ◌⊎◌, inl, inr, true, not, same, same→eq, has, All, All-mono, In, get, get-put, keep, length,
  length-append, last?, leb, ◌==◌, Option, none, some, List, [], ◌∷◌, ◌++◌, Result, ok, err, arith,
  Bool-cases, Result-cases,
}
use node_raft_rsm.Types.{
  NodeId, follower, candidate, leader, EntryType, LogEntry, RaftMessage, RequestVoteRequest,
  AppendEntriesRequest, request_vote_request, append_entries_request, RaftReady, RaftEvent, message,
}
use node_raft_rsm.Core.State.{
  RaftCore, State, PeerProgress, Error, send, boundary, last_index, last_log_index, term_at,
  find_term, boundary_term, or_zero,
}
use node_raft_rsm.Core.Leader.{
  append_local, append_request, local_entry, initial_progress, take_office, is_term, set_commit,
}
use node_raft_rsm.Core.Handlers.{
  stand, become_follower, grants, may_vote_for, cast_vote, Appending, append_entries, append_all,
  learn_commit, learned_commit, add_vote, set_progress, acknowledged, backed_up, addressed,
}
use node_raft_rsm.Core.Reading.{append_entries-Read}
use node_raft_rsm.Core.Closure.{Quiet, After, Closed, dispatch_Done}
use node_raft_rsm.Core.Ballots.{sent_by}
use node_raft_rsm.Core.Step.{
  step, step_beside, begin, dispatch, conclude, publish, make_ready, nothing_to_do,
  assert_invariants,
}
use node_raft_rsm.Core.Log.{Contiguous, Contiguous-snoc, last_index-Contiguous}
use node_raft_rsm.Core.Chains.{
  Link, links, Chain, Chain-mono, Chain-snoc, In-links_snoc, In-links_last, Chain-next, term_before,
}

pub last-size :
    (c : RaftCore)
    → c.snapshot ≡ none
    → Contiguous 1 c.entries
    → last_log_index c ≡ length c.entries
unfolding boundary
last-size c n r =
    ap (λ s. last_index (last? c.entries) s) n
    ∙ last_index-Contiguous none c.entries r
    ∙ (omega arith)

abbrev pub Extends : List LogEntry → List LogEntry → Type 0
Extends es fs = (gs : List LogEntry) × (fs ≡ es ++ gs)

pub Extends-length : (es fs : List LogEntry) → Extends es fs → length es ≤ length fs
Extends-length es fs (gs, e) = rw e (omega (arith, length-append es gs))

pub Extends-refl : (es fs : List LogEntry) → fs ≡ es → Extends es fs
Extends-refl es fs e = ([], e ∙ sym (append-nil es))

pub Extends-trans : (es fs gs : List LogEntry) → Extends es fs → Extends fs gs → Extends es gs
Extends-trans es fs gs (xs, e) (ys, f) =
    (xs ++ ys, f ∙ ap (λ zs. zs ++ ys) e ∙ append_assoc es xs ys)

module _ (Known : Link → Type 0) (b : RaftCore) where
  -- A link that the node, leading, has made since `b`.
  abbrev pub Fresh : RaftCore → Link → Type 0
  Fresh c l =
      (c.role ≡ leader)
      × (l.entry.term ≡ c.current_term)
      × (length b.entries < l.entry.index)
      × In l (links 0 c.entries)

  abbrev pub Source : RaftCore → Link → Type 0
  Source c l = Known l ⊎ Fresh c l

  -- Requests go to others; an AppendEntries request comes from a leader and carries a chain.
  abbrev pub Carries : RaftCore → RaftMessage → Type 0
  Carries c (append_entries_request m) =
      (c.role ≡ leader)
      × (m.base.to ≢ c.node_id)
      × Contiguous (suc m.prev_log_index) m.entries
      × Chain (Source c) m.prev_log_term m.entries
  Carries c (request_vote_request m) = m.base.to ≢ c.node_id
  Carries c m = Unit {0}

  -- What is known of a message that the node handles.
  abbrev pub Handed : RaftMessage → Type 0
  Handed (append_entries_request m) =
      (b.role ≡ leader → m.base.term ≢ b.current_term)
      × Contiguous (suc m.prev_log_index) m.entries
      × Chain Known m.prev_log_term m.entries
  Handed (request_vote_request m) = m.base.from ≢ b.node_id
  Handed m = Unit {0}

  pub record Settled (c : RaftCore) : Type 0 where
    pub chain : Chain (Source c) 0 c.entries
    pub contiguous : Contiguous 1 c.entries
    pub no_snapshot : c.snapshot ≡ none
    pub same_id : c.node_id ≡ b.node_id
    pub term_grows : b.current_term ≤ c.current_term
    pub vote_kept :
        (v : NodeId) → c.current_term ≡ b.current_term → b.voted_for ≡ some v → c.voted_for ≡ some v
    pub reign : b.role ≡ leader → c.current_term ≡ b.current_term → c.role ≡ leader
    pub grown : c.role ≢ follower → Extends b.entries c.entries
    pub selfless : get c.progress c.node_id ≡ none

  pub record Linked (s : State) : Type 0 where
    pub settled : Settled s.core
    pub carried : All (Carries s.core) s.effects.messages
    pub idle : Quiet s → s.core.entries ≡ b.entries

  not_quiet : {A : Type 0} (xs : List A) (a : A) → xs ++ a ∷ [] ≢ []
  not_quiet [] a h = cc
  not_quiet (x ∷ xs) a h = cc

  pub send-Linked : (m : RaftMessage) (s : State) → Carries s.core m → Linked s → Linked (send m s)
  send-Linked m s k l = record {
    settled = l.settled;
    carried = All-snoc (Carries s.core) s.effects.messages m l.carried k;
    idle = λ q. absurd (not_quiet s.effects.messages m q.0);
  }

  Source-mono :
      (c d : RaftCore)
      → (c.role ≡ leader → d.role ≡ leader)
      → d.current_term ≡ c.current_term
      → ((l : Link) → In l (links 0 c.entries) → In l (links 0 d.entries))
      → (l : Link) → Source c l
      → Source d l
  Source-mono c d r t more l (inl k) = inl k
  Source-mono c d r t more l (inr (lead, term, above, there)) =
      inr (r lead, term ∙ sym t, above, more l there)

  Carries-mono :
      (c d : RaftCore)
      → (c.role ≡ leader → d.role ≡ leader)
      → d.node_id ≡ c.node_id
      → ((l : Link) → Source c l → Source d l)
      → (m : RaftMessage) → Carries c m
      → Carries d m
  Carries-mono c d r i more (append_entries_request m) (lead, other, run, chain) =
      (r lead, λ e. other (e ∙ i), run, Chain-mono (Source c) (Source d) _ m.entries more chain)
  Carries-mono c d r i more (request_vote_request m) other = λ e. other (e ∙ i)
  Carries-mono c d r i more m k = tt

  -- A change that leaves the term, the vote and the log, and makes no leader step down.
  pub moved-Linked :
      (s t : State)
      → t.core.entries ≡ s.core.entries
      → t.core.snapshot ≡ s.core.snapshot
      → t.core.node_id ≡ s.core.node_id
      → t.core.current_term ≡ s.core.current_term
      → t.core.voted_for ≡ s.core.voted_for
      → (s.core.role ≡ leader → t.core.role ≡ leader)
      → (t.core.role ≢ follower → s.core.role ≢ follower)
      → get t.core.progress t.core.node_id ≡ none
      → t.effects.messages ≡ s.effects.messages
      → (Quiet t → Quiet s)
      → Linked s
      → Linked t
  moved-Linked s t e n i term vote up stays self same_messages quiet l =
      let old = l.settled in
      let more =
        Source-mono s.core t.core up term (λ x h. subst (λ es. In x (links 0 es)) (sym e) h) in
      record {
        settled = record {
          chain =
              subst (Chain (Source t.core) 0) (sym e)
                (Chain-mono (Source s.core) (Source t.core) 0 s.core.entries more old.chain);
          contiguous = rw e old.contiguous;
          no_snapshot = n ∙ old.no_snapshot;
          same_id = i ∙ old.same_id;
          term_grows = omega (arith, old.term_grows, term);
          vote_kept = λ v same_term w. vote ∙ old.vote_kept v (sym term ∙ same_term) w;
          reign = λ lead same_term. up (old.reign lead (sym term ∙ same_term));
          grown = λ f. subst (Extends b.entries) (sym e) (old.grown (stays f));
          selfless = self;
        };
        carried =
            rw same_messages
              (All-mono _ _ s.effects.messages (Carries-mono s.core t.core up i more) l.carried);
        idle = λ q. e ∙ l.idle (quiet q);
      }

  local-Linked :
      (type : EntryType) (payload : List ℕ) (id : Option (List ℕ)) (s : State)
      → s.core.role ≡ leader
      → Linked s
      → Linked (append_local type payload id s)
  unfolding append_local
  local-Linked type payload id s lead l =
      let e = local_entry type payload id s.core in
      let d : RaftCore = record s.core { entries = s.core.entries ++ e ∷ [] } in
      let old = l.settled in
      let size = last-size s.core old.no_snapshot old.contiguous in
      let more = Source-mono s.core d (λ r. r) refl (In-links_snoc 0 s.core.entries e) in
      let longer = old.grown (λ g. cc (lead, g)) in
      let bigger = Extends-length b.entries s.core.entries longer in
      record {
        settled = record {
          chain =
              Chain-snoc (Source d) 0 s.core.entries e
                (Chain-mono (Source s.core) (Source d) 0 s.core.entries more old.chain)
                (inr (lead, refl, omega (arith, size, bigger), In-links_last 0 s.core.entries e));
          contiguous = Contiguous-snoc 1 s.core.entries e old.contiguous (omega (arith, size));
          no_snapshot = old.no_snapshot;
          same_id = old.same_id;
          term_grows = old.term_grows;
          vote_kept = old.vote_kept;
          reign = old.reign;
          grown = λ f. Extends-trans b.entries s.core.entries _ longer (e ∷ [], refl);
          selfless = old.selfless;
        };
        carried =
            All-mono _ _ s.effects.messages (Carries-mono s.core d (λ r. r) refl more) l.carried;
        idle = λ q. absurd (not_quiet s.effects.entries e q.2);
      }

  term_at-before :
      (c : RaftCore) (k : ℕ) → c.snapshot ≡ none → term_at c k ≡ term_before c.entries k
  unfolding find_term boundary_term
  term_at-before c k n = ap (λ s. find_term s c.entries k) n

  append_request-Carries :
      (peer : NodeId) (p : PeerProgress) (s : State)
      → s.core.role ≡ leader
      → get s.core.progress peer ≡ some p
      → Linked s
      → Carries s.core (append_entries_request (append_request s.core peer p))
  unfolding append_request
  append_request-Carries peer p s lead h l =
      let (run, chain) =
        Chain-next (Source s.core) p.next_index s.core.entries l.settled.contiguous
          l.settled.chain in
      (
        lead,
        λ e. cc (h, l.settled.selfless, e),
        run,
        subst
            (λ t.
              Chain (Source s.core) (or_zero t)
                (keep (λ e. leb p.next_index e.index) s.core.entries))
            (sym (term_at-before s.core (p.next_index - 1) l.settled.no_snapshot)) chain,
      )

  peer_other :
      (ms : List NodeId) (x i : NodeId) → has x (keep (λ m. not (same m i)) ms) ≡ true → x ≢ i
  peer_other [] x i h e = cc
  peer_other (m ∷ ms) x i h e = elim (Bool-cases (same m i)) [
    | inl g ↦ peer_other ms x i (ground arith) e
    | inr g ↦ elim (Bool-cases (same m x)) [
      | inl k ↦ cc (g, k, e)
      | inr k ↦ peer_other ms x i (ground arith) e
    ]
  ]

  get-initial :
      (n : ℕ) (ms : List NodeId) (i : NodeId)
      → get (initial_progress n (keep (λ m. not (same m i)) ms)) i ≡ none
  unfolding initial_progress
  get-initial n [] i = refl
  get-initial n (m ∷ ms) i = elim (Bool-cases (same m i)) [
    | inl g ↦ rw g (get-initial n ms i)
    | inr g ↦ rw g (rw g (get-initial n ms i))
  ]

  take_office-Linked : (s : State) → s.core.role ≡ candidate → Linked s → Linked (take_office s)
  take_office-Linked s r l =
      moved-Linked s (take_office s) refl refl refl refl refl (λ h. refl) (λ f g. cc (r, g))
        (get-initial (last_log_index s.core + 1) s.core.members s.core.node_id) refl (λ q. q) l

  -- The node has left its office, and has not changed its log.
  demoted-Linked :
      (s t : State)
      → Chain Known 0 b.entries
      → t.core.role ≢ leader
      → t.core.entries ≡ s.core.entries
      → t.core.snapshot ≡ s.core.snapshot
      → t.core.node_id ≡ s.core.node_id
      → s.core.current_term ≤ t.core.current_term
      → ((v : NodeId)
          → t.core.current_term ≡ s.core.current_term
          → s.core.voted_for ≡ some v
          → t.core.voted_for ≡ some v)
      → (b.role ≡ leader → t.core.current_term ≢ b.current_term)
      → get t.core.progress t.core.node_id ≡ none
      → t.effects.messages ≡ []
      → Quiet s
      → Linked s
      → Linked t
  demoted-Linked s t base out e n i term vote over self silent q l =
      let old = l.settled in
      let whole : t.core.entries ≡ b.entries = e ∙ l.idle q in
      record {
        settled = record {
          chain =
              subst (Chain (Source t.core) 0) (sym whole)
                (Chain-mono Known (Source t.core) 0 b.entries (λ x k. inl k) base);
          contiguous = subst (Contiguous 1) (sym e) old.contiguous;
          no_snapshot = n ∙ old.no_snapshot;
          same_id = i ∙ old.same_id;
          term_grows = omega (arith, old.term_grows, term);
          vote_kept = λ v same_term w.
              vote v (omega (arith, old.term_grows, term, same_term))
                (old.vote_kept v (omega (arith, old.term_grows, term, same_term)) w);
          reign = λ lead same_term. absurd (over lead same_term);
          grown = λ f. Extends-refl b.entries t.core.entries whole;
          selfless = self;
        };
        carried = subst (All (Carries t.core)) (sym silent) tt;
        idle = λ k. whole;
      }

  record Adopted (term : ℕ) (s t : State) : Type 0 where
    role : t.core.role ≡ follower
    entries : t.core.entries ≡ s.core.entries
    snapshot : t.core.snapshot ≡ s.core.snapshot
    node_id : t.core.node_id ≡ s.core.node_id
    now : t.core.current_term ≡ term
    vote_kept :
        (v : NodeId)
        → t.core.current_term ≡ s.core.current_term
        → s.core.voted_for ≡ some v
        → t.core.voted_for ≡ some v
    progress : t.core.progress ≡ []
    messages : t.effects.messages ≡ s.effects.messages

  become_follower-Adopted :
      (term : ℕ) (id : Option NodeId) (s : State)
      → s.core.current_term ≤ term
      → Adopted term s (become_follower term id s)
  unfolding become_follower
  become_follower-Adopted term id s h = record {
    role = ground arith;
    entries = ground arith;
    snapshot = ground arith;
    node_id = ground arith;
    now = ground arith;
    vote_kept = λ v same_term w. ground arith;
    progress = ground arith;
    messages = ground arith;
  }

  module _ (base : Chain Known 0 b.entries)
      (own_vote : b.role ≡ leader → b.voted_for ≡ some b.node_id) where
    follow-Linked :
        (term : ℕ) (id : Option NodeId) (s : State)
        → Quiet s
        → s.core.current_term ≤ term
        → (s.core.current_term < term)
          ⊎ ((m : AppendEntriesRequest) × Handed (append_entries_request m) × (m.base.term ≡ term))
        → Linked s
        → Linked (become_follower term id s)
    follow-Linked term id s q h new l =
        let a = become_follower-Adopted term id s h in
        demoted-Linked s (become_follower term id s) base (λ e. cc (a.role, e)) a.entries a.snapshot
          a.node_id (omega (arith, a.now)) a.vote_kept
          (λ lead e. elim new [
            | inl later ↦ omega (arith, l.settled.term_grows, a.now)
            | inr (m, handed, at) ↦ handed.0 lead (at ∙ sym a.now ∙ e)
          ])
          (ap (λ p. get p (become_follower term id s).core.node_id) a.progress) (a.messages ∙ q.0) q
          l

    stand-Linked : (s : State) → Quiet s → Linked s → Linked (stand s)
    stand-Linked s q l =
        demoted-Linked s (stand s) base (λ e. cc) refl refl refl (omega arith)
          (λ v e w. absurd (omega (arith, e))) (λ lead e. omega (arith, l.settled.term_grows, e))
          l.settled.selfless q.0 q l

    granted_for :
        (o : Option NodeId) (from v : NodeId) → may_vote_for o from ≡ true → o ≡ some v → v ≡ from
    granted_for none from v h e = cc
    granted_for (some w) from v h e = cc (same→eq w from h, e)

    grant-Linked :
        (m : RequestVoteRequest) (s : State)
        → Handed (request_vote_request m)
        → Quiet s
        → grants m s.core ≡ true
        → Linked s
        → Linked (cast_vote m.base.from s)
    grant-Linked m s other q g l =
        demoted-Linked s (cast_vote m.base.from s) base (λ e. cc) refl refl refl (omega arith)
          (λ v e w. ap some (sym (granted_for s.core.voted_for m.base.from v (ground arith) w)))
          (λ lead e. other (
            sym (
              granted_for s.core.voted_for m.base.from b.node_id (ground arith)
                (l.settled.vote_kept b.node_id e (own_vote lead)))))
          l.settled.selfless q.0 q l

    -- What is left of a step that threw.
    abbrev pub Left : Error → State → Type 0
    Left e s = Settled s.core

    taken-Settled :
        (c d : RaftCore)
        → Settled c
        → c.role ≡ follower
        → d ≡ record c { entries = d.entries }
        → Contiguous 1 d.entries
        → Chain Known 0 d.entries
        → Settled d
    taken-Settled c d old f frame run chain = subst Settled (sym frame) (record {
      chain =
          Chain-mono Known (Source (record c { entries = d.entries })) 0 d.entries (λ l k. inl k)
            chain;
      contiguous = run;
      no_snapshot = old.no_snapshot;
      same_id = old.same_id;
      term_grows = old.term_grows;
      vote_kept = old.vote_kept;
      reign = old.reign;
      grown = λ g. absurd (g f);
      selfless = old.selfless;
    })

    is_term_eq : (o : Option ℕ) (t : ℕ) → is_term o t ≡ true → o ≡ some t
    is_term_eq none t h = cc
    is_term_eq (some u) t h = ground arith

    uncut : (o p : Option ℕ) → (elim o [ none ↦ p | some i ↦ some i ]) ≡ none → o ≡ none
    uncut none p h = refl
    uncut (some i) p h = cc

    none_appended : (xs ys : List LogEntry) → xs ++ ys ≡ [] → ys ≡ []
    none_appended [] ys h = h
    none_appended (x ∷ xs) ys h = cc

    append_all-Linked :
        (m : AppendEntriesRequest) (s : State)
        → Handed (append_entries_request m)
        → Quiet s
        → s.core.role ≡ follower
        → is_term (term_at s.core m.prev_log_index) m.prev_log_term ≡ true
        → Linked s
        → After Handed Linked Left (append_all m.entries s).0 (append_all m.entries s).1
    unfolding append_all
    append_all-Linked m s (rival, run, chain) q f t l =
        let old = l.settled in
        let start : Appending = record { core = s.core; truncate_from = none; appended = [] } in
        let r =
          append_entries-Read Known s.core m.entries start m.prev_log_index m.prev_log_term
            old.no_snapshot run chain
            (record {
              read = record {
                frame = refl;
                contiguous = old.contiguous;
                chain = subst (Chain Known 0) (sym (l.idle q)) base;
                untouched = λ h k. refl;
              };
              at =
                  sym (term_at-before s.core m.prev_log_index old.no_snapshot)
                  ∙ is_term_eq (term_at s.core m.prev_log_index) m.prev_log_term t;
            }) in
        let settled =
          taken-Settled s.core (append_entries m.entries start).1.core old f r.frame r.contiguous
            r.chain in
        elim (Result-cases (append_entries m.entries start).0) [
          | inl (_, e) ↦
              rw (e, append_all)
                (record {
                  settled = settled;
                  carried =
                      subst (All (Carries (append_entries m.entries start).1.core)) (sym q.0) tt;
                  idle = λ k.
                      r.untouched (uncut _ s.effects.truncate_from k.1)
                        (none_appended s.effects.entries _ k.2)
                      ∙ l.idle q;
                })
          | inr (x, e) ↦ rw (e, append_all) settled
        ]

    learned-Linked : (n : ℕ) (s : State) → Linked s → Linked (learn_commit n s)
    unfolding learn_commit
    learned-Linked n s l = elim (Bool-cases (learned_commit n s.core == s.core.commit_index)) [
      | inl g ↦ rw g (
          moved-Linked s _ refl refl refl refl refl (λ h. h) (λ h. h) l.settled.selfless refl
            (λ q. q) l)
      | inr g ↦ rw g (
          moved-Linked s _ refl refl refl refl refl (λ h. h) (λ h. h) l.settled.selfless refl
            (λ q. q) l)
    ]

    added-Linked : (from : NodeId) (s : State) → Linked s → Linked (add_vote from s)
    added-Linked from s l = elim (Bool-cases (has from s.core.votes)) [
      | inl g ↦ rw g l
      | inr g ↦ rw g (
          moved-Linked s _ refl refl refl refl refl (λ h. h) (λ h. h) l.settled.selfless refl
            (λ q. q) l)
    ]

    progress-Linked :
        (from : NodeId) (p q : PeerProgress) (s : State)
        → get s.core.progress from ≡ some p
        → Linked s
        → Linked (set_progress from q s)
    progress-Linked from p q s h l =
        moved-Linked s (set_progress from q s) refl refl refl refl refl (λ h. h) (λ h. h)
          (elim (Bool-cases (same from s.core.node_id)) [
            | inl g ↦ cc (same→eq from s.core.node_id g, h, l.settled.selfless)
            | inr g ↦ get-put s.core.progress from s.core.node_id q ∙ (rw g l.settled.selfless)
          ])
          refl (λ q. q) l

    pub Linked-Closed : Closed Handed Linked Left
    Linked-Closed = record {
      append_locally = local-Linked;
      send_append = λ peer p s r h l. send-Linked _ s (append_request-Carries peer p s r h l) l;
      commit = λ i s r h l.
          moved-Linked s (set_commit (some i) s).1 refl refl refl refl refl (λ h. h) (λ h. h)
            l.settled.selfless refl (λ q. q) l;
      take = λ s r q l. take_office-Linked s r l;
      stands = λ s q r l. stand-Linked s q l;
      send_vote_request =
          λ peer s r w l. send-Linked _ s (peer_other s.core.members peer s.core.node_id w) l;
      follow = follow-Linked;
      grant = λ m s other q g l. send-Linked _ _ tt (grant-Linked m s other q g l);
      refuse = λ m s g l. send-Linked _ s tt l;
      count = λ m s k r t v l. added-Linked m.base.from s l;
      respond = λ to success matched hint s l. send-Linked _ s tt l;
      append = append_all-Linked;
      learn = learned-Linked;
      progresses = λ m p s k h l. progress-Linked m.base.from p (acknowledged m p) s h l;
      backs_up = λ m p s k h l. progress-Linked m.base.from p (backed_up m p) s h l;
      missing = λ peer s r k h l. l.settled;
    }

    published :
        (c : RaftCore) (n : ℕ) (o : Option RaftReady)
        → Settled c
        → Settled (record c { ready_sequence = n; outstanding = o })
    published c n o s = record {
      chain = s.chain;
      contiguous = s.contiguous;
      no_snapshot = s.no_snapshot;
      same_id = s.same_id;
      term_grows = s.term_grows;
      vote_kept = s.vote_kept;
      reign = s.reign;
      grown = s.grown;
      selfless = s.selfless;
    }

    -- What a step leaves, and the messages that it hands out.
    abbrev pub Handover : Result Error (Option RaftReady) × RaftCore → Type 0
    Handover (r, c) = Settled c × All (Carries c) (sent_by r)

    make_ready-Handover : (s : State) → Linked s → Handover (ok (make_ready s).0, (make_ready s).1)
    unfolding make_ready
    make_ready-Handover s l = elim (Bool-cases (nothing_to_do s)) [
      | inl g ↦ rw g (l.settled, tt)
      | inr g ↦ rw g (published s.core _ _ l.settled, l.carried)
    ]

    publish-Handover : (r : Result Error Unit) (s : State) → Linked s → Handover (publish r s)
    publish-Handover (ok _) s l = make_ready-Handover s l
    publish-Handover (err e) s l = (l.settled, tt)

    conclude-Handover :
        (r : Result Error Unit) (s : State) → After Handed Linked Left r s → Handover (conclude r s)
    conclude-Handover (ok _) s l = publish-Handover (assert_invariants s.core) s l
    conclude-Handover (err e) s l = (l, tt)

    step_beside-Handover :
        (o : Option RaftReady) (event : RaftEvent)
        → ((m : RaftMessage) → event ≡ message m → addressed m b ≡ true → Handed m)
        → Settled b
        → Handover (step_beside o event b)
    unfolding step_beside
    step_beside-Handover (some r) event g s = (s, tt)
    step_beside-Handover none event g s =
        conclude-Handover (dispatch event (begin b)).0 (dispatch event (begin b)).1 (
          dispatch_Done Handed Linked Left Linked-Closed event (begin b)
            (record { rejected = λ m e h. s; unproposed = λ id payload e h. s }) g
            (refl, refl, refl) (record { settled = s; carried = tt; idle = λ q. refl }))

    pub step-Handover :
        (event : RaftEvent)
        → ((m : RaftMessage) → event ≡ message m → addressed m b ≡ true → Handed m)
        → Settled b
        → Handover (step event b)
    unfolding step
    step-Handover event = step_beside-Handover b.outstanding event
