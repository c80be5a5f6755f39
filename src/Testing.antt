-- ===== src/Testing.antt =====
-- packages/raft-testing/src/test-cluster.ts: `assertInvariants` of `TestCluster`, which each
-- operation of the cluster ends with, and RaftStatus, which it reads. The members that run are a
-- list, the Map's entries in order; the hash of an entry and that of a machine are parameters.
pub mod Fits
pub mod Verdicts
pub mod Reached
pub mod Durability
use node_raft_rsm.Base.{
  ℕ, zero, suc, ◌+◌, ◌==◌, Bool, true, false, not, ltb, leb, same, get, put, keep, Text,
  if◌then◌else◌, Option, none, some, List, [], ◌∷◌, ◌++◌, Result, ok, err, proceed, Exec, map,
}
use node_raft_rsm.Types.{NodeId, ClusterId, Role, leader, LogEntry, PersistedRaftState}
use node_raft_rsm.Core.State.{RaftCore, last_log_index, boundary, or_zero}
use node_raft_rsm.Core.Leader.{is_leader}

pub record RaftStatus : Type 0 where
  pub node_id : NodeId
  pub cluster_id : ClusterId
  pub role : Role
  pub current_term : ℕ
  pub leader_id : Option NodeId
  pub last_log_index : ℕ
  pub commit_index : ℕ
  pub applied_index : ℕ
  pub snapshot_index : ℕ

abbrev pub status : RaftCore → RaftStatus
status c = record {
  node_id = c.node_id;
  cluster_id = c.cluster_id;
  role = c.role;
  current_term = c.current_term;
  leader_id = c.leader_id;
  last_log_index = last_log_index c;
  commit_index = c.commit_index;
  applied_index = c.applied_index;
  snapshot_index = boundary c.snapshot;
}

pub data Violation : Type 0 where
  term_decreased commit_decreased applied_decreased applied_exceeds_commit commit_exceeds_log
        two_leaders not_contiguous committed_differs hashes_differ :
      Violation

-- The private maps of the cluster: what it last saw of each member.
pub record Watch : Type 0 where
  pub last_terms : List (NodeId × ℕ)
  pub last_commits : List (NodeId × ℕ)
  pub last_applied : List (NodeId × ℕ)

-- A Map whose keys are numbers.
module _ {V : Type 0} where
  abbrev pub get_at : List (ℕ × V) → ℕ → Option V
  get_at [] k = none
  get_at ((j, v) ∷ m) k = let rest = get_at m k in if j == k then some v else rest

  abbrev pub put_at : List (ℕ × V) → ℕ → V → List (ℕ × V)
  put_at [] k v = (k, v) ∷ []
  put_at ((j, w) ∷ m) k v = let rest = put_at m k v in if j == k then (j, v) ∷ m else (j, w) ∷ rest

-- The loop over the members that run: the maps, and `leadersByTerm`.
pub record Round : Type 0 where
  pub watch : Watch
  pub leaders : List (ℕ × NodeId)

abbrev pub measure : NodeId → RaftStatus → Watch → Option Violation
measure m s w =
    if ltb s.current_term (or_zero (get w.last_terms m))
    then some term_decreased
    else if ltb s.commit_index (or_zero (get w.last_commits m))
    then some commit_decreased
    else if ltb s.applied_index (or_zero (get w.last_applied m))
    then some applied_decreased
    else if ltb s.commit_index s.applied_index
    then some applied_exceeds_commit
    else if ltb s.last_log_index s.commit_index
    then some commit_exceeds_log
    else none

abbrev pub noted : NodeId → RaftStatus → Watch → Watch
noted m s w = record {
  last_terms = put w.last_terms m s.current_term;
  last_commits = put w.last_commits m s.commit_index;
  last_applied = put w.last_applied m s.applied_index;
}

-- `existing !== undefined && existing !== member`
abbrev pub rivals : Option NodeId → NodeId → Bool
rivals none m = false
rivals (some n) m = not (same n m)

abbrev pub check_leader : NodeId → RaftStatus → Exec Violation Round Unit
check_leader m s r =
    if not (is_leader s.role)
    then (ok tt, r)
    else if rivals (get_at r.leaders s.current_term) m
    then (err two_leaders, r)
    else (ok tt, record r { leaders = put_at r.leaders s.current_term m })

abbrev pub check_measured : Option Violation → NodeId → RaftStatus → Exec Violation Round Unit
check_measured (some v) m s r = (err v, r)
check_measured none m s r = check_leader m s (record r { watch = noted m s r.watch })

abbrev pub check_live : List (NodeId × RaftStatus) → Exec Violation Round Unit
check_live [] r = (ok tt, r)
check_live ((m, s) ∷ more) r =
    proceed (check_measured (measure m s r.watch) m s r).0 (λ _. check_live more)
      (check_measured (measure m s r.watch) m s r).1

module _ (fingerprint : LogEntry → Text) where
  -- The loops over the durable states, with the index expected next and the map of fingerprints.
  abbrev pub known_differs : Option Text → Text → Bool
  known_differs none f = false
  known_differs (some g) f = not (same g f)

  abbrev pub check_committed : LogEntry → ℕ → List (ℕ × Text) → Result Violation (List (ℕ × Text))
  check_committed e commit known =
      if not (leb e.index commit)
      then ok known
      else if known_differs (get_at known e.index) (fingerprint e)
      then err committed_differs
      else ok (put_at known e.index (fingerprint e))

  abbrev pub check_entries :
      ℕ
      → ℕ
      → List LogEntry
      → Result Violation (List (ℕ × Text))
      → Result Violation (List (ℕ × Text))
  check_entries expected commit es (err v) = err v
  check_entries expected commit [] (ok known) = ok known
  check_entries expected commit (e ∷ es) (ok known) =
      if e.index == expected
      then check_entries (expected + 1) commit es (check_committed e commit known)
      else err not_contiguous

  abbrev pub check_durable :
      List PersistedRaftState
      → Result Violation (List (ℕ × Text))
      → Result Violation (List (ℕ × Text))
  check_durable [] r = r
  check_durable (p ∷ ps) r =
      check_durable ps
        (check_entries (boundary p.snapshot + 1) p.hard_state.commit_index p.entries r)

module _ {Machine : Type 0} (state_hash : Machine → Text) where
  abbrev pub caught_up : List (RaftStatus × Machine) → List (RaftStatus × Machine)
  caught_up = keep (λ p. p.0.applied_index == p.0.commit_index)

  abbrev pub highest : ℕ → List (RaftStatus × Machine) → ℕ
  highest n [] = n
  highest n ((s, m) ∷ ps) = highest (if ltb n s.applied_index then s.applied_index else n) ps

  abbrev pub hashes_at : ℕ → List (RaftStatus × Machine) → List Text
  hashes_at n ps = map (λ p. state_hash p.1) (keep (λ p. p.0.applied_index == n) ps)

  abbrev pub some_other : Text → List Text → Bool
  some_other h [] = false
  some_other h (g ∷ gs) = let rest = some_other h gs in if same g h then rest else true

  abbrev pub hashes_differ_in : List Text → Bool
  hashes_differ_in [] = false
  hashes_differ_in (h ∷ hs) = some_other h (h ∷ hs)

  abbrev pub check_hashes : List (RaftStatus × Machine) → Result Violation Unit
  check_hashes ps =
      if hashes_differ_in (hashes_at (highest 0 (caught_up ps)) (caught_up ps))
      then err hashes_differ
      else ok tt

abbrev pub assert_hashes :
    {Machine : Type 0}
    → Option (Machine → Text)
    → List (RaftStatus × Machine)
    → Result Violation Unit
assert_hashes none ps = ok tt
assert_hashes (some state_hash) ps = check_hashes state_hash ps

abbrev pub then_hashes :
    {Machine : Type 0}
    → Option (Machine → Text)
    → List (RaftStatus × Machine)
    → Result Violation (List (ℕ × Text))
    → Result Violation Unit
then_hashes state_hash ps (err v) = err v
then_hashes state_hash ps (ok known) = assert_hashes state_hash ps

abbrev pub after_live : Result Violation Unit → Result Violation Unit → Result Violation Unit
after_live (err v) rest = err v
after_live (ok _) rest = rest

-- `assertInvariants`, on the members that run with their machines, and the durable states.
abbrev pub assert_cluster :
    {Machine : Type 0}
    → (LogEntry → Text)
    → Option (Machine → Text)
    → List (NodeId × (RaftStatus × Machine))
    → List PersistedRaftState
    → Exec Violation Watch Unit
assert_cluster fingerprint state_hash live durable w =
    let r = check_live (map (λ p. (p.0, p.1.0)) live) (record { watch = w; leaders = [] }) in
    (
      after_live r.0 (
          then_hashes state_hash (map (λ p. p.1) live) (check_durable fingerprint durable (ok []))),
      r.1.watch,
    )
