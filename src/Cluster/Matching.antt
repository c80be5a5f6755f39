-- ===== src/Cluster/Matching.antt =====
-- Log matching over the history of a cluster: two logs with an entry of one term at an index agree
-- up to it.
use node_raft_rsm.Base.{
  In, In-append, In-append_right, All, All-In, ℕ, ◌≤◌, ◌≡◌, ◌≢◌, refl, ◌∙◌, sym, ap, subst, inl,
  inr, true, same, same→eq, has, some, List, arith, Bool-cases,
}
use node_raft_rsm.Types.{
  NodeId, leader, RaftMessage, request_vote_request, append_entries_request, RaftEvent, LogEntry,
  message,
}
use node_raft_rsm.Core.State.{RaftCore, find_entry}
use node_raft_rsm.Core.Handlers.{addressed}
use node_raft_rsm.Core.Step.{advance, step}
use node_raft_rsm.Core.Chains.{Link, Chain-mono, links_unique, links-end}
use node_raft_rsm.Core.Agreement.{Chain-match}
use node_raft_rsm.Core.Ballots.{Stamped, sent_by}
use node_raft_rsm.Core.Linked.{Fresh, Carries, Handed, Settled, step-Handover}
use node_raft_rsm.Cluster.{
  Ballot, System, update, after_event, Step, event_at, advance_at, Run, here, next, Started,
}
use node_raft_rsm.Cluster.Invariant.{
  Inv, event-Inv, event-Stamped, Run-Inv, Started-Inv, create-fresh,
}
use node_raft_rsm.Cluster.Election.{Elected, Elected-of, Elected-more, Elected-unique}
use node_raft_rsm.Cluster.Logs.{
  Makers, Made, Past, Node, Mail, Maker, Logs, Mail-more, Node-more, Node-Settled, remade,
  Source-Made, Made-more, Settled-Node, Past-later, Past-Fresh, advance-SameLog, Node-SameLog,
  Past-SameLog,
}

module _ {members : List NodeId} {s : System} (K : Makers) (inv : Inv members s)
    (logs : Logs K members s) (i : NodeId) (mine : has i members ≡ true) where
  abbrev before : RaftCore
  before = s.core i

  before_id : before.node_id ≡ i
  before_id = (inv.member i mine).own_id

  own_vote : before.role ≡ leader → before.voted_for ≡ some before.node_id
  own_vote lead = ((inv.member i mine).tallied.tally (λ e. cc (lead, e))).stands

  -- A leader's AppendEntries request comes to no other leader of its term.
  mail-Handed :
      (m : RaftMessage) → In m s.sent → addressed m before ≡ true → Handed (Made K) before m
  mail-Handed (append_entries_request m) h a =
      let (elected, other, run, chain) = logs.mail (append_entries_request m) h in
      (
        λ lead t. other (
            same→eq m.base.to before.node_id (ground arith)
            ∙ before_id
            ∙ sym (
                Elected-unique inv elected (
                  subst (Elected members s.ballots i) (sym t)
                    (Elected-of (inv.member i mine) lead)))),
        run,
        chain,
      )
  mail-Handed (request_vote_request m) h a = λ e.
      logs.mail (request_vote_request m) h (same→eq m.base.to before.node_id (ground arith) ∙ sym e)
  mail-Handed m h a = tt

  module _ (event : RaftEvent) (arrives : (m : RaftMessage) → event ≡ message m → In m s.sent) where
    abbrev after : RaftCore
    after = (step event before).1

    abbrev later : System
    later = after_event s i event

    abbrev K_later : Makers
    K_later = remade K i before after

    more : (x : Ballot) → In x s.ballots → In x later.ballots
    more x h = In-append_right _ s.ballots x h

    Inv-later : Inv members later
    Inv-later = event-Inv inv i mine event arrives

    pub handover :
        Settled (Made K) before after
        × All (Carries (Made K) before after) (sent_by (step event before).0)
    handover =
        step-Handover (Made K) before (logs.node i mine).chain own_vote event
          (λ m e a. mail-Handed m (arrives m e) a) (Node-Settled K before (logs.node i mine))

    own_core : later.core i ≡ after
    own_core = elim (Bool-cases (same i i)) [ inl e ↦ rw e | inr e ↦ ground arith ]

    Elected-now : after.role ≡ leader → Elected members later.ballots i after.current_term
    Elected-now lead =
        subst (λ c. Elected members later.ballots i c.current_term) own_core
          (Elected-of (Inv-later.member i mine) (ap (λ (c : RaftCore). c.role) own_core ∙ lead))

    later-node : (j : NodeId) → has j members ≡ true → Node K_later (later.core j)
    later-node j theirs = elim (Bool-cases (same i j)) [
      | inl e ↦ rw e (Settled-Node K i before after handover.0)
      | inr e ↦
          rw e (Node-more K K_later (s.core j) (Made-more K i before after) (logs.node j theirs))
    ]

    old_new :
        (l m : Link) (j : NodeId)
        → K j l
        → Fresh (Made K) before after m
        → l.entry.index ≡ m.entry.index
        → l.entry.term ≢ m.entry.term
    old_new l m j k f at t =
        let made = logs.maker j l k in
        let one : j ≡ i =
          Elected-unique Inv-later (Elected-more more made.elected)
            (subst (Elected members later.ballots i) (sym (t ∙ f.1)) (Elected-now f.0)) in
        Past-Fresh K before after l m handover.0 (subst (λ n. Past (s.core n) l) one made.past) f at
          t

    later-apart :
        (l m : Link) (j k : NodeId)
        → K_later j l
        → K_later k m
        → l.entry.index ≡ m.entry.index
        → l.entry.term ≡ m.entry.term
        → l ≡ m
    later-apart l m j k (inl p) (inl q) at t = logs.apart l m j k p q at t
    later-apart l m j k (inl p) (inr (_, f)) at t = absurd (old_new l m j p f at t)
    later-apart l m j k (inr (_, f)) (inl q) at t = absurd (old_new m l k q f (sym at) (sym t))
    later-apart l m j k (inr (_, f)) (inr (_, g)) at t =
        links_unique 1 0 after.entries l m handover.0.contiguous f.3 g.3 at

    later-Past : (j : NodeId) (l : Link) → Past (s.core j) l → Past (later.core j) l
    later-Past j l p = elim (Bool-cases (same i j)) [
      | inl e ↦ rw e (
          Past-later K before after l handover.0
            (subst (λ n. Past (s.core n) l) (sym (same→eq i j e)) p))
      | inr e ↦ rw e p
    ]

    later-Maker : (j : NodeId) (l : Link) → K_later j l → Maker members later j l
    later-Maker j l (inl k) = record {
      one = (logs.maker j l k).one;
      elected = Elected-more more (logs.maker j l k).elected;
      past = later-Past j l (logs.maker j l k).past;
    }
    later-Maker j l (inr (own, f)) =
        subst (λ n. Maker members later n l) (sym own)
          (record {
            one = mine;
            elected = subst (Elected members later.ballots i) (sym f.1) (Elected-now f.0);
            past =
                subst (λ c. Past c l) (sym own_core)
                  (inr (
                    f.1,
                    f.0,
                    omega (arith, links-end 1 0 after.entries l handover.0.contiguous f.3),
                  ));
          })

    new-Mail :
        (m : RaftMessage)
        → Carries (Made K) before after m
        → Stamped after m
        → after.node_id ≡ i
        → Mail K_later members later.ballots m
    new-Mail (append_entries_request m) (lead, other, run, chain) p own = (
      rw (p.sender, own, p.current) (Elected-now lead),
      λ e. other (e ∙ p.sender),
      run,
      Chain-mono _ _ m.prev_log_term m.entries (Source-Made K i before after) chain,
    )
    new-Mail (request_vote_request m) other p own = λ e. other (e ∙ p.sender)
    new-Mail m k p own = tt

    event-Logs : Logs K_later members later
    event-Logs = record {
      node = later-node;
      apart = later-apart;
      maker = later-Maker;
      mail = λ m h. elim (In-append (sent_by (step event before).0) s.sent m h) [
        | inl new ↦
            new-Mail m (All-In _ _ m handover.1 new) (event-Stamped inv i mine event arrives m new)
              (handover.0.same_id ∙ before_id)
        | inr old ↦
            Mail-more K K_later members s.ballots later.ballots m (Made-more K i before after) more
              (logs.mail m old)
      ];
    }

  advance-node :
      (ready : ℕ) (j : NodeId)
      → has j members ≡ true
      → Node K (update s.core i (advance ready (s.core i)).1 j)
  advance-node ready j theirs = elim (Bool-cases (same i j)) [
    | inl e ↦
        rw e (Node-SameLog K (s.core i) _ (advance-SameLog ready (s.core i)) (logs.node i mine))
    | inr e ↦ rw e (logs.node j theirs)
  ]

  advance-Past :
      (ready : ℕ) (j : NodeId) (l : Link)
      → Past (s.core j) l
      → Past (update s.core i (advance ready (s.core i)).1 j) l
  advance-Past ready j l p = elim (Bool-cases (same i j)) [
    | inl e ↦ rw e (
        Past-SameLog (s.core i) _ l (advance-SameLog ready (s.core i))
          (subst (λ n. Past (s.core n) l) (sym (same→eq i j e)) p))
    | inr e ↦ rw e p
  ]

  advance-Logs :
      (ready : ℕ)
      → Logs K members (record s { core = update s.core i (advance ready (s.core i)).1 })
  advance-Logs ready = record {
    node = advance-node ready;
    apart = logs.apart;
    maker = λ j l k. record {
      one = (logs.maker j l k).one;
      elected = (logs.maker j l k).elected;
      past = advance-Past ready j l (logs.maker j l k).past;
    };
    mail = logs.mail;
  }

abbrev pub Logged : List NodeId → System → Type 1
Logged members s = (K : Makers) × Logs K members s

pub Step-Logged :
    {members : List NodeId} {s t : System}
    → Step members s t
    → Inv members s
    → Logged members s
    → Logged members t
Step-Logged {s = s} (event_at i event mine arrives) inv (K, logs) =
    (remade K i (s.core i) (step event (s.core i)).1, event-Logs K inv logs i mine event arrives)
Step-Logged (advance_at i ready mine) inv (K, logs) = (K, advance-Logs K inv logs i mine ready)

pub Started-Logged : {members : List NodeId} {s : System} → Started members s → Logged members s
Started-Logged {members} {s} st = (
  λ i l. ⊥,
  record {
    node = λ i h.
        subst (Node (λ i l. ⊥))
          (sym (create-fresh (st.options i) (s.core i) (st.blank i h) (st.created i h)))
          (record { chain = tt; contiguous = tt; no_snapshot = refl; selfless = refl });
    apart = λ l m i j k. elim k [ ];
    maker = λ i l k. elim k [ ];
    mail = λ m h. elim (rw st.silent at h) [ ];
  },
)

pub Run-Logged :
    {members : List NodeId} {s t : System}
    → Inv members s
    → Logged members s
    → Run members s t
    → Logged members t
Run-Logged inv logged here = logged
Run-Logged inv logged (next r st) = Step-Logged st (Run-Inv inv r) (Run-Logged inv logged r)

-- Log matching. The system starts as for election safety: a core for each member that the
-- constructor accepts without a persisted state, all with one list of members, nothing sent and no
-- vote cast. It goes on by events at single nodes, a received message being one that was sent
-- before, and by advances. If in a state that it reaches the logs of two members hold entries of
-- the same term at an index, then the two logs hold the same at that index and at every one before.
pub log_matching :
    {members : List NodeId} {start s : System}
    → Started members start
    → Run members start s
    → (i j : NodeId) → has i members ≡ true
    → has j members ≡ true
    → (k : ℕ) (e f : LogEntry) → find_entry (s.core i).entries k ≡ some e
    → find_entry (s.core j).entries k ≡ some f
    → e.term ≡ f.term
    → (n : ℕ) → n ≤ k
    → find_entry (s.core i).entries n ≡ find_entry (s.core j).entries n
log_matching {members} {start} {s} st r i j hi hj k e f x y t =
    let (K, logs) = Run-Logged (Started-Inv st) (Started-Logged st) r in
    Chain-match (Made K) (λ l m (p, a) (q, b). logs.apart l m p q a b) k (s.core i).entries
      (s.core j).entries e f ((logs.node i hi).contiguous, (logs.node i hi).chain)
      ((logs.node j hj).contiguous, (logs.node j hj).chain) x y t
