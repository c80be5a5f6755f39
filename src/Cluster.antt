-- ===== src/Cluster.antt =====
-- Several `RaftCore`s that exchange messages. The network may delay, reorder, duplicate and lose:
-- whatever was sent may arrive any number of times, or never. Proposals and timeouts come at will.
-- `ballots` is a history variable: each vote that a node held when a step ended.
pub mod Invariant
pub mod Election
pub mod Logs
pub mod Matching
pub mod Tenure
pub mod Forward
use node_raft_rsm.Base.{
  In, In-append, In-append_left, In-append_right, All-mono, All-In, ℕ, ◌≡◌, ◌⊎◌, Bool, true, same,
  has, if◌then◌else◌, Option, none, some, List, [], ◌∷◌, ◌++◌, ok,
}
use node_raft_rsm.Types.{NodeId, RaftMessage, RaftEvent, message, RaftCoreOptions}
use node_raft_rsm.Core.State.{RaftCore}
use node_raft_rsm.Core.Step.{step, advance, create}
use node_raft_rsm.Core.Ballots.{sent_by}

pub record Ballot : Type 0 where
  pub voter : NodeId
  pub term : ℕ
  pub choice : NodeId

pub record System : Type 0 where
  pub core : NodeId → RaftCore
  pub sent : List RaftMessage
  pub ballots : List Ballot

abbrev pub update : (NodeId → RaftCore) → NodeId → RaftCore → NodeId → RaftCore
update cores i c j = if same i j then c else cores j

abbrev pub vote_of : NodeId → ℕ → Option NodeId → List Ballot
vote_of i term none = []
vote_of i term (some v) = record { voter = i; term = term; choice = v } ∷ []

-- What the node `i` has become is written back, and what it hands out is sent.
abbrev pub after_event : System → NodeId → RaftEvent → System
after_event s i event =
    let r = step event (s.core i) in
    record {
      core = update s.core i r.1;
      sent = sent_by r.0 ++ s.sent;
      ballots = vote_of i r.1.current_term r.1.voted_for ++ s.ballots;
    }

pub data Step (members : List NodeId) (s : System) : System → Type 0 where
  event_at :
      (i : NodeId) (event : RaftEvent)
      → has i members ≡ true
      → ((m : RaftMessage) → event ≡ message m → In m s.sent)
      → Step members s (after_event s i event)
  advance_at :
      (i : NodeId) (ready : ℕ)
      → has i members ≡ true
      → Step members s (record s { core = update s.core i (advance ready (s.core i)).1 })

pub data Run (members : List NodeId) (s : System) : System → Type 0 where
  here : Run members s s
  next : {t u : System} → Run members s t → Step members t u → Run members s u

-- Every member was made by the constructor, with these members and nothing persisted.
pub record Started (members : List NodeId) (s : System) : Type 0 where
  pub silent : s.sent ≡ []
  pub unvoted : s.ballots ≡ []
  pub options : NodeId → RaftCoreOptions
  pub own_id : (i : NodeId) → has i members ≡ true → (options i).node_id ≡ i
  pub same_members : (i : NodeId) → has i members ≡ true → (options i).members ≡ members
  pub blank : (i : NodeId) → has i members ≡ true → (options i).persisted ≡ none
  pub created : (i : NodeId) → has i members ≡ true → create (options i) ≡ ok (s.core i)
