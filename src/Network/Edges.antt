-- ===== src/Network/Edges.antt =====
-- The blocked edges: what a partition cuts, and what the key of an edge says.
use node_raft_rsm.Base.{
  ℕ, ◌≡◌, refl, ap, subst, ◌⊎◌, inl, inr, true, false, Text, same, same→eq, same_refl, has,
  has-append, ◌==◌, some, List, [], ◌∷◌, arith, Bool-cases,
}
use node_raft_rsm.Types.{NodeId, RaftMessage, base_of, valid_id, all_id_chars}
use node_raft_rsm.Network.{
  MemoryNetwork, edge, edge_from, edge_to, insert, enqueue, sever, sever_all, partition, hand_over,
  take_out,
}

has-insert : (x y : Text) (ys : List Text) → has y ys ≡ true → has y (insert x ys) ≡ true
has-insert x y ys h = elim (Bool-cases (has x ys)) [
  | inl g ↦ rw g h
  | inr g ↦ rw g (ground (arith, has-append y ys (x ∷ []), h))
]

has-insert_same : (x : Text) (ys : List Text) → has x (insert x ys) ≡ true
has-insert_same x ys = elim (Bool-cases (has x ys)) [
  | inl g ↦ rw g g
  | inr g ↦ rw g (ground (arith, has-append x ys (x ∷ []), same_refl x))
]

has-sever :
    (from : NodeId) (right : List NodeId) (blocked : List Text) (x : Text)
    → has x blocked ≡ true
    → has x (sever from right blocked) ≡ true
has-sever from [] blocked x h = h
has-sever from (to ∷ right) blocked x h =
    has-sever from right _ x (has-insert (edge to from) x _ (has-insert (edge from to) x blocked h))

has-sever_all :
    (left right : List NodeId) (blocked : List Text) (x : Text)
    → has x blocked ≡ true
    → has x (sever_all left right blocked) ≡ true
has-sever_all [] right blocked x h = h
has-sever_all (from ∷ left) right blocked x h =
    has-sever_all left right _ x (has-sever from right blocked x h)

-- Both directions between two nodes are blocked.
abbrev Parted : NodeId → NodeId → List Text → Type 0
Parted a b blocked = (has (edge a b) blocked ≡ true) × (has (edge b a) blocked ≡ true)

sever-Parted :
    (a b : NodeId) (right : List NodeId) (blocked : List Text)
    → has b right ≡ true
    → Parted a b (sever a right blocked)
sever-Parted a b [] blocked h = absurd cc
sever-Parted a b (to ∷ right) blocked h = elim (Bool-cases (same to b)) [
  | inl g ↦
      subst (λ y. Parted a y (sever a (to ∷ right) blocked)) (same→eq to b g)
        (
          has-sever a right _ (edge a to)
              (has-insert (edge to a) (edge a to) _ (has-insert_same (edge a to) blocked)),
          has-sever a right _ (edge to a) (has-insert_same (edge to a) _),
        )
  | inr g ↦ sever-Parted a b right _ (ground arith)
]

sever_all-Parted :
    (a b : NodeId) (left right : List NodeId) (blocked : List Text)
    → has a left ≡ true
    → has b right ≡ true
    → Parted a b (sever_all left right blocked)
sever_all-Parted a b [] right blocked h k = absurd cc
sever_all-Parted a b (from ∷ left) right blocked h k = elim (Bool-cases (same from a)) [
  | inl g ↦
      subst (λ y. Parted y b (sever_all (from ∷ left) right blocked)) (same→eq from a g)
        (
          has-sever_all left right _ (edge from b) (sever-Parted from b right blocked k).0,
          has-sever_all left right _ (edge b from) (sever-Parted from b right blocked k).1,
        )
  | inr g ↦ sever_all-Parted a b left right _ (ground arith) k
]

-- The two ends of the message are on the two sides.
abbrev pub Across : List NodeId → List NodeId → NodeId → NodeId → Type 0
Across left right a b =
    ((has a left ≡ true) × (has b right ≡ true)) ⊎ ((has a right ≡ true) × (has b left ≡ true))

partition-cut :
    (left right : List NodeId) (n : MemoryNetwork) (a b : NodeId)
    → Across left right a b
    → has (edge a b) (partition left right n).blocked ≡ true
unfolding partition
partition-cut left right n a b (inl (h, k)) = (sever_all-Parted a b left right n.blocked h k).0
partition-cut left right n a b (inr (h, k)) = (sever_all-Parted b a left right n.blocked k h).1

blocked-hand_over :
    (handle : NodeId → RaftMessage → MemoryNetwork → MemoryNetwork) (k id : ℕ) (m : RaftMessage)
    (n : MemoryNetwork)
    → has (edge (base_of m).from (base_of m).to) n.blocked ≡ true
    → hand_over handle k (some (record { id = id; message = m })) n
      ≡ (false, record n { queue = take_out k n.queue })
blocked-hand_over handle k id m n cut = elim (Bool-cases (has (base_of m).to n.handlers)) [
  | inl g ↦ rw (g, cut) refl
  | inr g ↦ rw g refl
]

-- A partition blocks each message from one side to the other, in both directions, whatever the
-- handlers do: sending it leaves the network as it is, and if it was pending already, delivering it
-- returns false and takes it out of the queue, and calls no handler and changes nothing else.
pub partition-blocks :
    (handle : NodeId → RaftMessage → MemoryNetwork → MemoryNetwork) (left right : List NodeId)
    (n : MemoryNetwork) (m : RaftMessage)
    → Across left right (base_of m).from (base_of m).to
    → (enqueue m (partition left right n) ≡ partition left right n)
      × ((k id : ℕ)
          → hand_over handle k (some (record { id = id; message = m })) (partition left right n) ≡ (
            false,
            record (partition left right n) { queue = take_out k (partition left right n).queue },
          ))
unfolding enqueue
partition-blocks handle left right n m across =
    let cut = partition-cut left right n (base_of m).from (base_of m).to across in
    (ground (arith, cut), λ k id. blocked-hand_over handle k id m (partition left right n) cut)

ends :
    (a b : NodeId) → all_id_chars a ≡ true → (edge_from (edge a b) ≡ a) × (edge_to (edge a b) ≡ b)
unfolding all_id_chars
ends [] b h = (refl, refl)
ends (c ∷ cs) b h = elim (Bool-cases (c == 0)) [
  | inl g ↦ absurd (ground arith)
  | inr g ↦ let (from, to) = ends cs b (ground arith) in (rw g (ap (◌∷◌ c) from), rw g to)
]

valid-all_id_chars : (a : NodeId) → valid_id a ≡ true → all_id_chars a ≡ true
unfolding valid_id all_id_chars
valid-all_id_chars [] h = absurd cc
valid-all_id_chars (c ∷ cs) h = ground arith

-- The key of an edge keeps its two ends apart, if the first is an id that `nodeId` accepts: both ends
-- are read back, as `blockedEdges` does, so two edges with one key are one.
pub edge-ends :
    (a b : NodeId) → valid_id a ≡ true → (edge_from (edge a b) ≡ a) × (edge_to (edge a b) ≡ b)
edge-ends a b h = ends a b (valid-all_id_chars a h)
