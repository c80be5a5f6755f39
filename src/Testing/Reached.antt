-- ===== src/Testing/Reached.antt =====
-- packages/raft-testing/src/test-cluster.ts over the runs of a cluster: what the checks of
-- `assertInvariants` on the members that run find there.
use node_raft_rsm.Base.{
  ◌≤◌, ◌≡◌, refl, sym, ap, subst, ◌∙◌, inl, inr, true, has, get, distinct, map, All, In, Within,
  List, [], ◌∷◌, ok, arith,
}
use node_raft_rsm.Types.{NodeId}
use node_raft_rsm.Core.State.{RaftCore, or_zero}
use node_raft_rsm.Cluster.{System, Run, here, next, Started}
use node_raft_rsm.Cluster.Election.{election_safety}
use node_raft_rsm.Cluster.Forward.{Later, never_back}
use node_raft_rsm.Testing.{RaftStatus, status, Watch, Round, check_live}
use node_raft_rsm.Testing.Fits.{Fits, Unrivalled, names}
use node_raft_rsm.Testing.Verdicts.{check_live-InOrder}

abbrev pub statuses : System → List NodeId → List (NodeId × RaftStatus)
statuses s up = map (λ j. (j, status (s.core j))) up

abbrev pub fresh_round : Watch → Round
fresh_round w = record { watch = w; leaders = [] }

-- What was last seen of a node was seen in this state of it or before.
pub record Seen (w : Watch) (j : NodeId) (c : RaftCore) : Type 0 where
  pub term : or_zero (get w.last_terms j) ≤ c.current_term
  pub commit : or_zero (get w.last_commits j) ≤ c.commit_index
  pub applied : or_zero (get w.last_applied j) ≤ c.applied_index

names-statuses : (s : System) (up : List NodeId) → names (statuses s up) ≡ up
names-statuses s [] = refl
names-statuses s (j ∷ up) = ap (◌∷◌ j) (names-statuses s up)

Later-Fits :
    (w : Watch) (j : NodeId) (c d : RaftCore) → Seen w j c → Later c d → Fits w (j, status d)
Later-Fits w j c d s l = record {
  term = omega (arith, s.term, l.term);
  commit = omega (arith, s.commit, l.commit);
  applied = omega (arith, s.applied, l.applied);
  applied_in_order = l.in_order.0;
  commit_in_order = l.in_order.1;
}

status-member :
    (s : System) (members up : List NodeId) (x : NodeId × RaftStatus)
    → Within up members
    → In x (statuses s up)
    → (has x.0 members ≡ true) × (x.1 ≡ status (s.core x.0))
status-member s members [] x w h = elim h [ ]
status-member s members (j ∷ up) x w (inl e) =
    subst (λ (y : NodeId × RaftStatus). (has y.0 members ≡ true) × (y.1 ≡ status (s.core y.0)))
      (sym e) (w.0, refl)
status-member s members (j ∷ up) x w (inr h) = status-member s members up x w.1 h

module _ {members : List NodeId} {start s t : System} (st : Started members start)
    (r : Run members start s) (q : Run members s t) (w : Watch) where
  statuses-Fits :
      (up : List NodeId)
      → Within up members
      → All (λ j. Seen w j (s.core j)) up
      → All (Fits w) (statuses t up)
  statuses-Fits [] within seen = tt
  statuses-Fits (j ∷ up) within seen = (
    Later-Fits w j (s.core j) (t.core j) seen.0 (never_back st r q j within.0),
    statuses-Fits up within.1 seen.1,
  )

joined :
    {members : List NodeId} {r s t : System} → Run members r s → Run members s t → Run members r t
joined a here = a
joined a (next b st) = next (joined a b) st

statuses-Unrivalled :
    {members : List NodeId} {start t : System}
    → Started members start
    → Run members start t
    → (up : List NodeId) → Within up members
    → Unrivalled [] (statuses t up)
statuses-Unrivalled {members} {start} {t} st r up within = record {
  known = λ x n h l e. cc;
  pairs = λ x y h k l m e.
      let (mine, at) = status-member t members up x within h in
      let (theirs, there) = status-member t members up y within k in
      election_safety st r here x.0 y.0 mine theirs (sym (ap (λ (z : RaftStatus). z.role) at) ∙ l)
        (sym (ap (λ (z : RaftStatus). z.role) there) ∙ m)
        (sym (ap (λ (z : RaftStatus). z.current_term) at)
          ∙ e
          ∙ ap (λ (z : RaftStatus). z.current_term) there);
}

-- The check of the members that run never fires on a run of the cluster. The system starts and goes
-- on as for election safety, and what the check last saw of each member that runs, it saw in a state of
-- the run or before it. Then in every later state the loop over any distinct members, begun with no
-- leader noted, passes without a violation.
pub check_live-passes :
    {members : List NodeId} {start s t : System}
    → Started members start
    → Run members start s
    → Run members s t
    → (up : List NodeId) → Within up members
    → distinct up ≡ true
    → (w : Watch) → All (λ j. Seen w j (s.core j)) up
    → (check_live (statuses t up) (fresh_round w)).0 ≡ ok tt
check_live-passes {t = t} st r q up within single w seen =
    (check_live-InOrder (statuses t up) (fresh_round w)
        (ap distinct (names-statuses t up) ∙ single)).1
      (record {
        fits = statuses-Fits st r q w up within seen;
        unrivalled = statuses-Unrivalled st (joined r q) up within;
      })
