-- ===== src/Testing/Fits.antt =====
-- packages/raft-testing/src/test-cluster.ts: a member's status beside what was last seen of it.
use node_raft_rsm.Base.{
  ℕ, ◌≤◌, ◌≡◌, refl, ap, ◌∙◌, inl, inr, false, ◌==◌, same, same→eq, same_refl, has, get, put,
  get-put, map, All, In, if◌then◌else◌, none, some, List, [], ◌∷◌, arith, Bool-cases,
}
use node_raft_rsm.Types.{NodeId, leader}
use node_raft_rsm.Core.State.{or_zero}
use node_raft_rsm.Testing.{RaftStatus, Watch, get_at, put_at, measure, noted}

pub get_at-put_at :
    {V : Type 0} (m : List (ℕ × V)) (k j : ℕ) (v : V)
    → get_at (put_at m k v) j ≡ (if k == j then some v else get_at m j)
get_at-put_at [] k j v = refl
get_at-put_at ((i, w) ∷ m) k j v = ground (arith, get_at-put_at m k j v)

-- The status goes on from what was last seen of the member, and is in order.
pub record Fits (w : Watch) (x : NodeId × RaftStatus) : Type 0 where
  pub term : or_zero (get w.last_terms x.0) ≤ x.1.current_term
  pub commit : or_zero (get w.last_commits x.0) ≤ x.1.commit_index
  pub applied : or_zero (get w.last_applied x.0) ≤ x.1.applied_index
  pub applied_in_order : x.1.applied_index ≤ x.1.commit_index
  pub commit_in_order : x.1.commit_index ≤ x.1.last_log_index

abbrev pub Leads : NodeId × RaftStatus → Type 0
Leads x = x.1.role ≡ leader

pub record Unrivalled (leaders : List (ℕ × NodeId)) (live : List (NodeId × RaftStatus))
    : Type 0 where
  pub known :
      (x : NodeId × RaftStatus) (n : NodeId)
      → In x live
      → Leads x
      → get_at leaders x.1.current_term ≡ some n
      → n ≡ x.0
  pub pairs :
      (x y : NodeId × RaftStatus)
      → In x live
      → In y live
      → Leads x
      → Leads y
      → x.1.current_term ≡ y.1.current_term
      → x.0 ≡ y.0

pub measure-none : (m : NodeId) (s : RaftStatus) (w : Watch) → Fits w (m, s) → measure m s w ≡ none
measure-none m s w f =
    ground (arith, f.term, f.commit, f.applied, f.applied_in_order, f.commit_in_order)

pub none-measure : (m : NodeId) (s : RaftStatus) (w : Watch) → measure m s w ≡ none → Fits w (m, s)
none-measure m s w h = record {
  term = ground arith;
  commit = ground arith;
  applied = ground arith;
  applied_in_order = ground arith;
  commit_in_order = ground arith;
}

other_seen :
    (seen : List (NodeId × ℕ)) (m n : NodeId) (k : ℕ)
    → same m n ≡ false
    → or_zero (get (put seen m k) n) ≡ or_zero (get seen n)
other_seen seen m n k g = ap or_zero {y = get seen n} (get-put seen m n k ∙ rw g refl)

pub Fits-noted :
    (m : NodeId) (s : RaftStatus) (w : Watch) (x : NodeId × RaftStatus)
    → same m x.0 ≡ false
    → Fits w x
    → Fits (noted m s w) x
Fits-noted m s w x g f = record {
  term = omega (arith, other_seen w.last_terms m x.0 s.current_term g, f.term);
  commit = omega (arith, other_seen w.last_commits m x.0 s.commit_index g, f.commit);
  applied = omega (arith, other_seen w.last_applied m x.0 s.applied_index g, f.applied);
  applied_in_order = f.applied_in_order;
  commit_in_order = f.commit_in_order;
}

pub noted-Fits :
    (m : NodeId) (s : RaftStatus) (w : Watch) (x : NodeId × RaftStatus)
    → same m x.0 ≡ false
    → Fits (noted m s w) x
    → Fits w x
noted-Fits m s w x g f = record {
  term = omega (arith, other_seen w.last_terms m x.0 s.current_term g, f.term);
  commit = omega (arith, other_seen w.last_commits m x.0 s.commit_index g, f.commit);
  applied = omega (arith, other_seen w.last_applied m x.0 s.applied_index g, f.applied);
  applied_in_order = f.applied_in_order;
  commit_in_order = f.commit_in_order;
}

same_flip : (a b : NodeId) → same b a ≡ false → same a b ≡ false
same_flip a b h = elim (Bool-cases (same a b)) [
  | inl g ↦ cc (same→eq a b g, same_refl a, h)
  | inr g ↦ g
]

abbrev pub names : List (NodeId × RaftStatus) → List NodeId
names live = map (λ x. x.0) live

-- A change of each status's verdict, for members other than `m`.
pub All-others :
    (P Q : NodeId × RaftStatus → Type 0) (m : NodeId) (live : List (NodeId × RaftStatus))
    → has m (names live) ≡ false
    → ((x : NodeId × RaftStatus) → same m x.0 ≡ false → P x → Q x)
    → All P live
    → All Q live
All-others P Q m [] h f a = tt
All-others P Q m (x ∷ xs) h f a =
    (f x (same_flip m x.0 (ground arith)) a.0, All-others P Q m xs (ground arith) f a.1)
