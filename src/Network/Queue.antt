-- ===== src/Network/Queue.antt =====
-- The ids of the pending messages: no two have one, whatever is done to the queue.
use node_raft_rsm.Base.{
  ℕ, zero, suc, ◌+◌, ◌≤◌, ◌≡◌, ◌≢◌, refl, ap, ◌⊎◌, inl, inr, Bool, true, false, not, ◌&&◌, ◌==◌,
  if◌then◌else◌, Option, none, some, List, [], ◌∷◌, ◌++◌, arith, Bool-cases,
}
use node_raft_rsm.Types.{RaftMessage}
use node_raft_rsm.Network.{
  PendingNetworkMessage, MemoryNetwork, cuts, enqueue, item, put_at, take_out, copied, duplicate,
  reversed, reorder, dropped, drop, index_of, drop_found, drop_by_id, duplicate_found,
  duplicate_by_id,
}

-- How many pending messages have the id.
abbrev pub count : ℕ → List PendingNetworkMessage → ℕ
count i [] = 0
count i (p ∷ ps) = let rest = count i ps in if p.id == i then suc rest else rest

pub count-append :
    (i : ℕ) (xs ys : List PendingNetworkMessage) → count i (xs ++ ys) ≡ count i xs + count i ys
count-append i [] ys = omega arith
count-append i (x ∷ xs) ys = ground (arith, count-append i xs ys)

count-reversed : (i : ℕ) (xs : List PendingNetworkMessage) → count i (reversed xs) ≡ count i xs
count-reversed i [] = refl
count-reversed i (x ∷ xs) =
    ground (arith, count-append i (reversed xs) (x ∷ []), count-reversed i xs)

count-put_at :
    (i k : ℕ) (p : PendingNetworkMessage) (q : List PendingNetworkMessage)
    → count i (put_at k p q) ≡ count i (p ∷ q)
count-put_at i zero p q = refl
count-put_at i (suc k) p [] = refl
count-put_at i (suc k) p (x ∷ q) = ground (arith, count-put_at i k p q)

some-injective : (x p : PendingNetworkMessage) → some x ≡ some p → x ≡ p
some-injective x p h = cc

count-take_out :
    (i k : ℕ) (p : PendingNetworkMessage) (q : List PendingNetworkMessage)
    → item q k ≡ some p
    → count i q ≡ count i (p ∷ take_out k q)
count-take_out i k p [] h = absurd cc
count-take_out i zero p (x ∷ q) h = ap (λ y. count i (y ∷ q)) (some-injective x p h)
count-take_out i (suc k) p (x ∷ q) h = ground (arith, count-take_out i k p q h)

-- No two pending messages have one id, and the ids to come are new.
pub record Tidy (n : MemoryNetwork) : Type 0 where
  pub once : (i : ℕ) → count i n.queue ≤ 1
  pub unused : (i : ℕ) → n.next_message_id ≤ i → count i n.queue ≡ 0

pub data Operation : Type 0 where
  enqueue_op : RaftMessage → Operation
  duplicate_op drop_op duplicate_id_op drop_id_op : ℕ → Operation
  reorder_op : Operation

abbrev pub run_operation : Operation → MemoryNetwork → MemoryNetwork
run_operation (enqueue_op m) n = enqueue m n
run_operation (duplicate_op k) n = duplicate k n
run_operation (drop_op k) n = (drop k n).1
run_operation (duplicate_id_op i) n = (duplicate_by_id i n).1
run_operation (drop_id_op i) n = (drop_by_id i n).1
run_operation reorder_op n = reorder n

enqueue-Tidy : (m : RaftMessage) (n : MemoryNetwork) → Tidy n → Tidy (enqueue m n)
unfolding enqueue
enqueue-Tidy m n t = elim (Bool-cases (not n.drop_all && not (cuts n m))) [
  | inl g ↦ rw g (record {
    once = λ i. ground (
      arith,
      count-append i n.queue (record { id = n.next_message_id; message = m } ∷ []),
      t.once i,
      t.unused i,
    );
    unused = λ i l. ground (
      arith,
      count-append i n.queue (record { id = n.next_message_id; message = m } ∷ []),
      t.unused i,
    );
  })
  | inr g ↦ rw g t
]

copied-Tidy :
    (k : ℕ) (p : Option PendingNetworkMessage) (n : MemoryNetwork) → Tidy n → Tidy (copied k p n)
copied-Tidy k none n t = t
copied-Tidy k (some p) n t = record {
  once = λ i. ground (
    arith,
    count-put_at i k (record { id = n.next_message_id; message = p.message }) n.queue,
    t.once i,
    t.unused i,
  );
  unused = λ i l. ground (
    arith,
    count-put_at i k (record { id = n.next_message_id; message = p.message }) n.queue,
    t.unused i,
  );
}

dropped-Tidy :
    (k : ℕ) (p : Option PendingNetworkMessage) (n : MemoryNetwork)
    → item n.queue k ≡ p
    → Tidy n
    → Tidy (dropped k p n).1
dropped-Tidy k none n h t = t
dropped-Tidy k (some p) n h t = record {
  once = λ i. ground (arith, count-take_out i k p n.queue h, t.once i);
  unused = λ i l. ground (arith, count-take_out i k p n.queue h, t.unused i);
}

drop_found-Tidy : (o : Option ℕ) (n : MemoryNetwork) → Tidy n → Tidy (drop_found o n).1
drop_found-Tidy none n t = t
drop_found-Tidy (some k) n t = dropped-Tidy k (item n.queue k) n refl t

duplicate_found-Tidy : (o : Option ℕ) (n : MemoryNetwork) → Tidy n → Tidy (duplicate_found o n).1
duplicate_found-Tidy none n t = t
duplicate_found-Tidy (some k) n t = copied-Tidy k (item n.queue k) n t

-- Whatever is done to the queue, enqueueing, duplicating, dropping or reversing, by index or by id,
-- no two pending messages ever have one id, and the next id is above all of them.
pub run_operation-Tidy : (o : Operation) (n : MemoryNetwork) → Tidy n → Tidy (run_operation o n)
run_operation-Tidy (enqueue_op m) n t = enqueue-Tidy m n t
run_operation-Tidy (duplicate_op k) n t = copied-Tidy k (item n.queue k) n t
run_operation-Tidy (drop_op k) n t = dropped-Tidy k (item n.queue k) n refl t
run_operation-Tidy (duplicate_id_op i) n t = duplicate_found-Tidy (index_of i n.queue) n t
run_operation-Tidy (drop_id_op i) n t = drop_found-Tidy (index_of i n.queue) n t
run_operation-Tidy reorder_op n t = record {
  once = λ i. rw (count-reversed i n.queue) (t.once i);
  unused = λ i l. rw (count-reversed i n.queue) (t.unused i l);
}

-- `index_of` finds a message with the id, or there is none.
abbrev Found : ℕ → List PendingNetworkMessage → Option ℕ → Type 0
Found i q none = count i q ≡ 0
Found i q (some k) = (p : PendingNetworkMessage) × (item q k ≡ some p) × (p.id ≡ i)

later :
    (i : ℕ) (p : PendingNetworkMessage) (ps : List PendingNetworkMessage) (o : Option ℕ)
    → (p.id == i) ≡ false
    → Found i ps o
    → Found i (p ∷ ps) (elim o [ none ↦ none | some k ↦ some (suc k) ])
later i p ps none g f = ground arith
later i p ps (some k) g f = f

index_of-Found : (i : ℕ) (q : List PendingNetworkMessage) → Found i q (index_of i q)
index_of-Found i [] = refl
index_of-Found i (p ∷ ps) = elim (Bool-cases (p.id == i)) [
  | inl g ↦ rw g (p, refl, ground arith)
  | inr g ↦ rw g (later i p ps (index_of i ps) g (index_of-Found i ps))
]

-- The outcomes of `dropById`: there was no such message, or there was one and it has gone.
abbrev pub Removed : ℕ → MemoryNetwork → Bool × MemoryNetwork → Type 0
Removed i n (r, m) =
    ((count i n.queue ≡ 0) × (r ≡ false) × (m ≡ n))
    ⊎ ((count i n.queue ≡ 1)
        × (r ≡ true)
        × (count i m.queue ≡ 0)
        × ((j : ℕ) → j ≢ i → count j m.queue ≡ count j n.queue))

Found-Removed :
    (i : ℕ) (n : MemoryNetwork) (o : Option ℕ)
    → Found i n.queue o
    → Tidy n
    → Removed i n (drop_found o n)
Found-Removed i n none f t = inl (f, refl, refl)
Found-Removed i n (some k) (p, at, same_id) t = rw at (
    inr (
      ground (arith, count-take_out i k p n.queue at, t.once i),
      refl,
      ground (arith, count-take_out i k p n.queue at, t.once i),
      λ j other. ground (arith, count-take_out j k p n.queue at),
    ))

-- While no two pending messages have one id, `dropById` says whether a message with the id was
-- pending. If not, nothing changes; if so, that message has gone and every other one is there.
pub drop_by_id-Removed : (i : ℕ) (n : MemoryNetwork) → Tidy n → Removed i n (drop_by_id i n)
drop_by_id-Removed i n t = Found-Removed i n (index_of i n.queue) (index_of-Found i n.queue) t
