-- ===== src/Core/Commit.antt =====
-- `#advanceLeaderCommit` of raft.ts: which index it commits.
use node_raft_rsm.Base.{
  ℕ, zero, suc, ◌+◌, ◌-◌, ◌/◌, ◌≤◌, ◌<◌, ◌≡◌, refl, subst, ◌⊎◌, inl, inr, Bool, true, false, leb,
  ◌==◌, keep, length, Option, none, some, List, [], ◌∷◌, arith, Bool-cases,
}
use node_raft_rsm.Types.{NodeId, leader}
use node_raft_rsm.Core.State.{
  RaftCore, State, PeerProgress, has_quorum, term_at, last_log_index, note_hard_state,
}
use node_raft_rsm.Core.Leader.{
  replicated_from, is_term, committable, quorum_index, is_leader, advance_leader_commit,
}

-- The peers that have acknowledged the log up to the index.
abbrev pub backers : ℕ → List (NodeId × PeerProgress) → List (NodeId × PeerProgress)
backers index ps = keep (λ p. leb index p.1.match_index) ps

-- The entry at the index is of the leader's term, and a majority with the leader has it.
abbrev pub Backed : RaftCore → ℕ → Type 0
Backed c index =
    (term_at c index ≡ some c.current_term)
    × (length c.members / 2 + 1 ≤ 1 + length (backers index c.progress))

replicated_from-backers :
    (n : ℕ) (ps : List (NodeId × PeerProgress)) (index : ℕ)
    → replicated_from n ps index ≡ n + length (backers index ps)
unfolding replicated_from
replicated_from-backers n [] index = omega arith
replicated_from-backers n ((i, p) ∷ ps) index = elim (Bool-cases (leb index p.match_index)) [
  | inl g ↦ rw (g, replicated_from-backers (n + 1) ps index) (omega arith)
  | inr g ↦ rw (g, replicated_from-backers n ps index) refl
]

is_term-some : (o : Option ℕ) (t : ℕ) → is_term o t ≡ true → o ≡ some t
is_term-some none t h = cc
is_term-some (some u) t h = ground arith

some-is_term : (o : Option ℕ) (t : ℕ) → o ≡ some t → is_term o t ≡ true
some-is_term o t h = rw h (ground arith)

committable-Backed : (c : RaftCore) (index : ℕ) → committable c index ≡ true → Backed c index
unfolding committable has_quorum
committable-Backed c index h = elim (Bool-cases (is_term (term_at c index) c.current_term)) [
  | inr g ↦ cc (rw g at h)
  | inl g ↦ (is_term-some _ _ g, ground (arith, replicated_from-backers 1 c.progress index))
]

Backed-committable : (c : RaftCore) (index : ℕ) → Backed c index → committable c index ≡ true
unfolding committable has_quorum
Backed-committable c index (t, q) =
    rw (some-is_term _ _ t) (ground (arith, replicated_from-backers 1 c.progress index, q))

-- No index in the range is backed.
abbrev pub NoneBacked : RaftCore → ℕ → ℕ → Type 0
NoneBacked c lo hi = (j : ℕ) → lo < j → j ≤ hi → ¬ Backed c j

NoneBacked-suc :
    (c : RaftCore) (lo hi next : ℕ)
    → next ≡ suc hi
    → ¬ Backed c next
    → NoneBacked c lo hi
    → NoneBacked c lo next
NoneBacked-suc c lo hi next at top f j above within b = elim (Bool-cases (j == next)) [
  | inl e ↦ top (subst (Backed c) (ground arith) b)
  | inr e ↦ f j above (ground (arith, at)) b
]

record Greatest (c : RaftCore) (hi index : ℕ) : Type 0 where
  above : c.commit_index < index
  within : index ≤ hi
  backed : Backed c index
  none_later : NoneBacked c index hi

quorum_index-Greatest :
    (c : RaftCore) (k : ℕ)
    → ((quorum_index c k ≡ none) × NoneBacked c c.commit_index (c.commit_index + k))
      ⊎ ((i : ℕ) × (quorum_index c k ≡ some i) × Greatest c (c.commit_index + k) i)
unfolding quorum_index
quorum_index-Greatest c zero = inl (refl, λ j lo hi b. omega (arith, lo, hi))
quorum_index-Greatest c (suc k) = elim (Bool-cases (committable c (c.commit_index + suc k))) [
  | inl g ↦ inr (
    c.commit_index + suc k,
    rw g refl,
    record {
      above = omega arith;
      within = omega arith;
      backed = committable-Backed c (c.commit_index + suc k) g;
      none_later = λ j lo hi b. omega (arith, lo, hi);
    },
  )
  | inr g ↦
      let top : ¬ Backed c (c.commit_index + suc k) =
        λ b. cc (Backed-committable c (c.commit_index + suc k) b, g) in
      elim (quorum_index-Greatest c k) [
        | inl (e, f) ↦
            inl (rw g e, NoneBacked-suc c c.commit_index (c.commit_index + k) _ (omega arith) top f)
        | inr (i, e, found) ↦ inr (
          i,
          rw g e,
          record {
            above = found.above;
            within = omega (arith, found.within);
            backed = found.backed;
            none_later =
                NoneBacked-suc c i (c.commit_index + k) _ (omega arith) top found.none_later;
          },
        )
      ]
]

-- The commit index stays, since no later index is backed.
pub record Stays (s : State) (r : Bool × State) : Type 0 where
  pub result : r ≡ (false, s)
  pub none_backed : NoneBacked s.core s.core.commit_index (last_log_index s.core)

-- The commit index moves to the last index that is backed.
pub record Moves (s : State) (r : Bool × State) : Type 0 where
  pub index : ℕ
  pub result :
      r ≡ (true, note_hard_state (record s { core = record s.core { commit_index = index } }))
  pub above : s.core.commit_index < index
  pub within : index ≤ last_log_index s.core
  pub backed : Backed s.core index
  pub none_later : NoneBacked s.core index (last_log_index s.core)

-- A leader whose commit index is within its log advances the index to the greatest one after it, up to
-- the last of the log, that holds an entry of the leader's own term and that a majority, the leader
-- counted, has acknowledged. It notes the hard state then, and changes nothing else. If there is no
-- such index, it changes nothing.
pub advance_leader_commit-greatest :
    (s : State)
    → s.core.role ≡ leader
    → s.core.commit_index ≤ last_log_index s.core
    → Stays s (advance_leader_commit s) ⊎ Moves s (advance_leader_commit s)
unfolding advance_leader_commit
advance_leader_commit-greatest s lead le =
    let c = s.core in
    let test : is_leader c.role ≡ true = rw lead refl in
    let top : c.commit_index + (last_log_index c - c.commit_index) ≡ last_log_index c =
      omega (arith, le) in
    elim (quorum_index-Greatest c (last_log_index c - c.commit_index)) [
      | inl (e, f) ↦ inl (record {
        result = rw (test, e) refl;
        none_backed = subst (NoneBacked c c.commit_index) top f;
      })
      | inr (i, e, g) ↦ inr (record {
        index = i;
        result = rw (test, e) refl;
        above = g.above;
        within = omega (arith, g.within, top);
        backed = g.backed;
        none_later = subst (NoneBacked c i) top g.none_later;
      })
    ]
