-- ===== src/Network.antt =====
-- packages/raft-transport-memory/src/index.ts: the queue of messages between the nodes of one
-- process, with its faults. The handlers are code of the nodes: `handle` stands for them, and the
-- network knows who has one. Timers and the promises that wait for a message are not here.
pub mod Queue
pub mod Edges
use node_raft_rsm.Base.{
  ℕ, zero, suc, ◌+◌, Bool, true, false, ◌&&◌, ◌||◌, not, Text, Bytes, same, has, length, ltb, leb,
  ◌==◌, if◌then◌else◌, Option, none, some, List, [], ◌∷◌, ◌++◌, Result, ok, err,
}
use mathlib.Core.List.{map}
use node_raft_rsm.Types.{NodeId, RaftMessage, base_of, MessageBase}

pub record PendingNetworkMessage : Type 0 where
  pub id : ℕ
  pub message : RaftMessage

pub record MemoryNetwork : Type 0 where
  pub handlers : List NodeId
  pub queue : List PendingNetworkMessage
  pub blocked : List Text
  pub drop_all : Bool
  pub next_message_id : ℕ

pub data NetworkError : Type 0 where
  already_started drain_limit_exceeded not_started envelope_mismatch : NetworkError

abbrev pub quiet_network : MemoryNetwork
quiet_network = record {
  handlers = [];
  queue = [];
  blocked = [];
  drop_all = false;
  next_message_id = 1;
}

abbrev pub edge : NodeId → NodeId → Text
edge from to = from ++ 0 ∷ to

-- `set.add(x)`
abbrev pub insert : Text → List Text → List Text
insert x xs = if has x xs then xs else xs ++ x ∷ []

abbrev pub without : Text → List Text → List Text
without x [] = []
without x (y ∷ ys) = let rest = without x ys in if same y x then ys else y ∷ rest

abbrev pub register : NodeId → MemoryNetwork → Result NetworkError Unit × MemoryNetwork
register node n =
    if has node n.handlers
    then (err already_started, n)
    else (ok tt, record n { handlers = n.handlers ++ node ∷ [] })

abbrev pub unregister : NodeId → MemoryNetwork → MemoryNetwork
unregister node n = record n { handlers = without node n.handlers }

abbrev pub cuts : MemoryNetwork → RaftMessage → Bool
cuts n m = has (edge (base_of m).from (base_of m).to) n.blocked

unfoldable pub enqueue : RaftMessage → MemoryNetwork → MemoryNetwork
enqueue m n =
    if not n.drop_all && not (cuts n m)
    then record n {
      queue = n.queue ++ record { id = n.next_message_id; message = m } ∷ [];
      next_message_id = suc n.next_message_id;
    }
    else n

-- The inner loop of `partition`, over `right`.
abbrev pub sever : NodeId → List NodeId → List Text → List Text
sever from [] blocked = blocked
sever from (to ∷ right) blocked =
    sever from right (insert (edge to from) (insert (edge from to) blocked))

abbrev pub sever_all : List NodeId → List NodeId → List Text → List Text
sever_all [] right blocked = blocked
sever_all (from ∷ left) right blocked = sever_all left right (sever from right blocked)

unfoldable pub partition : List NodeId → List NodeId → MemoryNetwork → MemoryNetwork
partition left right n = record n { blocked = sever_all left right n.blocked }

abbrev pub heal : MemoryNetwork → MemoryNetwork
heal n = record n { blocked = []; drop_all = false }

abbrev pub set_drop_all : Bool → MemoryNetwork → MemoryNetwork
set_drop_all drop n = record n { drop_all = drop }

-- What stands before and behind the first separator of an edge, which always has one.
abbrev pub edge_from : Text → NodeId
edge_from [] = []
edge_from (c ∷ cs) = let rest = edge_from cs in if c == 0 then [] else c ∷ rest

abbrev pub edge_to : Text → NodeId
edge_to [] = []
edge_to (c ∷ cs) = let rest = edge_to cs in if c == 0 then cs else rest

abbrev pub blocked_edges : MemoryNetwork → List (NodeId × NodeId)
blocked_edges n = map (λ e. (edge_from e, edge_to e)) n.blocked

-- `queue[index]`
abbrev pub item : List PendingNetworkMessage → ℕ → Option PendingNetworkMessage
item [] i = none
item (p ∷ ps) zero = some p
item (p ∷ ps) (suc i) = item ps i

-- `queue.splice(index, 0, p)`
abbrev pub put_at :
    ℕ → PendingNetworkMessage → List PendingNetworkMessage → List PendingNetworkMessage
put_at zero p q = p ∷ q
put_at (suc i) p [] = p ∷ []
put_at (suc i) p (x ∷ q) = x ∷ put_at i p q

-- `queue.splice(index, 1)`, with what is left
abbrev pub take_out : ℕ → List PendingNetworkMessage → List PendingNetworkMessage
take_out i [] = []
take_out zero (x ∷ q) = q
take_out (suc i) (x ∷ q) = x ∷ take_out i q

abbrev pub copied : ℕ → Option PendingNetworkMessage → MemoryNetwork → MemoryNetwork
copied index none n = n
copied index (some p) n = record n {
  queue = put_at index (record { id = n.next_message_id; message = p.message }) n.queue;
  next_message_id = suc n.next_message_id;
}

abbrev pub duplicate : ℕ → MemoryNetwork → MemoryNetwork
duplicate index n = copied index (item n.queue index) n

abbrev pub reversed : List PendingNetworkMessage → List PendingNetworkMessage
reversed [] = []
reversed (p ∷ ps) = reversed ps ++ p ∷ []

abbrev pub reorder : MemoryNetwork → MemoryNetwork
reorder n = record n { queue = reversed n.queue }

abbrev pub dropped : ℕ → Option PendingNetworkMessage → MemoryNetwork → Bool × MemoryNetwork
dropped index none n = (false, n)
dropped index (some p) n = (true, record n { queue = take_out index n.queue })

abbrev pub drop : ℕ → MemoryNetwork → Bool × MemoryNetwork
drop index n = dropped index (item n.queue index) n

-- `queue.findIndex((pending) => pending.id === id)`
abbrev pub index_of : ℕ → List PendingNetworkMessage → Option ℕ
index_of id [] = none
index_of id (p ∷ ps) =
    let rest = index_of id ps in
    if p.id == id then some 0 else elim rest [ none ↦ none | some i ↦ some (suc i) ]

abbrev pub drop_found : Option ℕ → MemoryNetwork → Bool × MemoryNetwork
drop_found none n = (false, n)
drop_found (some i) n = drop i n

abbrev pub drop_by_id : ℕ → MemoryNetwork → Bool × MemoryNetwork
drop_by_id id n = drop_found (index_of id n.queue) n

abbrev pub duplicate_found : Option ℕ → MemoryNetwork → Bool × MemoryNetwork
duplicate_found none n = (false, n)
duplicate_found (some i) n = (true, duplicate i n)

abbrev pub duplicate_by_id : ℕ → MemoryNetwork → Bool × MemoryNetwork
duplicate_by_id id n = duplicate_found (index_of id n.queue) n

module _ (handle : NodeId → RaftMessage → MemoryNetwork → MemoryNetwork) where
  abbrev pub hand_over : ℕ → Option PendingNetworkMessage → MemoryNetwork → Bool × MemoryNetwork
  hand_over index none n = (false, n)
  hand_over index (some p) n =
      let rest = record n { queue = take_out index n.queue } in
      if not (has (base_of p.message).to n.handlers) || cuts n p.message
      then (false, rest)
      else (true, handle (base_of p.message).to p.message rest)

  abbrev pub deliver : ℕ → MemoryNetwork → Bool × MemoryNetwork
  deliver index n = hand_over index (item n.queue index) n

  abbrev pub deliver_found : Option ℕ → MemoryNetwork → Bool × MemoryNetwork
  deliver_found none n = (false, n)
  deliver_found (some i) n = deliver i n

  abbrev pub deliver_by_id : ℕ → MemoryNetwork → Bool × MemoryNetwork
  deliver_by_id id n = deliver_found (index_of id n.queue) n

  -- `drain`: its inner loop, with what is left of the limit.
  unfoldable pub drain : ℕ → MemoryNetwork → Result NetworkError Unit × MemoryNetwork
  drain zero n = elim n.queue [ [] ↦ (ok tt, n) | p ∷ ps ↦ (err drain_limit_exceeded, n) ]
  drain (suc limit) n =
      let rest = drain limit (deliver 0 n).1 in elim n.queue [ [] ↦ (ok tt, n) | p ∷ ps ↦ rest ]

-- One node's end of the network.
pub record MemoryRaftTransport : Type 0 where
  pub node_id : NodeId
  pub started : Bool

abbrev pub start :
    MemoryRaftTransport
    → MemoryNetwork
    → Result NetworkError Unit × MemoryRaftTransport × MemoryNetwork
start t n = elim (register t.node_id n).0 [
  | ok _ ↦ (ok tt, record t { started = true }, (register t.node_id n).1)
  | err e ↦ (err e, t, (register t.node_id n).1)
]

unfoldable pub send_to :
    MemoryRaftTransport
    → NodeId
    → RaftMessage
    → MemoryNetwork
    → Result NetworkError Unit × MemoryNetwork
send_to t peer m n =
    if not t.started
    then (err not_started, n)
    else if not (same (base_of m).from t.node_id) || not (same (base_of m).to peer)
    then (err envelope_mismatch, n)
    else (ok tt, enqueue m n)

abbrev pub stop : MemoryRaftTransport → MemoryNetwork → MemoryRaftTransport × MemoryNetwork
stop t n = (record t { started = false }, unregister t.node_id n)
