-- ===== src/Storage/Refinement.antt =====
-- The storage beside the core: what `#processReady` of packages/raft-node/src/node.ts writes, and
-- what a core that is created from the stored state begins with.
use node_raft_rsm.Base.{
  ◌⊎◌, inl, inr, ℕ, suc, ◌<◌, ◌≡◌, refl, sym, ◌∙◌, ap, subst, inl, inr, true, false, Option, none,
  some, List, [], ◌∷◌, ◌++◌, Result, ok, err, arith,
}
use node_raft_rsm.Types.{
  HardState, LogEntry, RaftMessage, RaftEvent, message, RaftReady, PersistBatch, PersistedRaftState,
  RaftCoreOptions, follower,
}
use node_raft_rsm.Core.State.{RaftCore, Error, hard_state, boundary}
use node_raft_rsm.Core.Handlers.{addressed}
use node_raft_rsm.Core.Step.{step, create, restore, fresh}
use node_raft_rsm.Core.Log.{Contiguous}
use node_raft_rsm.Core.Totality.{Sound, assert_invariants-ok}
use node_raft_rsm.Core.Ready.{Pending, Stepped, step-Stepped}
use node_raft_rsm.Core.Accounts.{cut, Ordered}
use node_raft_rsm.Core.Accounts.{Interrupted}
use node_raft_rsm.Core.Deltas.{Delta, Told, step-Told}
use node_raft_rsm.Storage.{
  MemoryRaftStorage, truncated, write_hard_state, write_applied, write_batch, next_entries, persist,
  load,
}
use node_raft_rsm.Storage.Batches.{pop_from-below, extended-Contiguous}

-- The batch that `#processReady` hands to the storage.
abbrev pub batch_of : RaftReady → PersistBatch
batch_of r = record {
  hard_state = r.hard_state;
  truncate_from = r.truncate_from;
  entries = r.unstable_entries;
  snapshot = r.snapshot;
  applied_index = none;
}

-- An open storage that holds what the core holds, after the writes of `history`.
abbrev pub image : RaftCore → List PersistBatch → MemoryRaftStorage
image c history = record {
  hard_state = hard_state c;
  entries = c.entries;
  snapshot = c.snapshot;
  applied_index = c.applied_index;
  is_closed = false;
  failure = none;
  history = history;
}

-- After a step, persisting its Ready makes the storage of the old core one of the new core; a step
-- without a Ready leaves the storage one of the new core, and so does one that throws, unless the
-- entries of an AppendEntries request interrupted it.
abbrev pub Mirrored :
    RaftCore → List PersistBatch → Result Error (Option RaftReady) × RaftCore → Type 0
Mirrored b history (ok (some r), d) =
    persist (batch_of r) (image b history) ≡ (ok tt, image d (history ++ batch_of r ∷ []))
Mirrored b history (ok none, d) = image b history ≡ image d history
Mirrored b history (err e, d) = (image b history ≡ image d history) ⊎ Interrupted b e d

truncated-ok :
    (k : Option ℕ) (b : RaftCore)
    → Contiguous (suc (boundary b.snapshot)) b.entries
    → ((n : ℕ) → k ≡ some n → b.commit_index < n)
    → truncated k b.commit_index b.entries ≡ ok (cut k b.entries)
unfolding truncated
truncated-ok none b c above = refl
truncated-ok (some n) b c above =
    rw (pop_from-below (suc (boundary b.snapshot)) n b.entries c) (ground (arith, above n refl))

-- The fields that a batch without an applied index or a snapshot writes.
abbrev stored : HardState → List LogEntry → RaftCore → List PersistBatch → MemoryRaftStorage
stored h es b history = record {
  hard_state = h;
  entries = es;
  snapshot = b.snapshot;
  applied_index = b.applied_index;
  is_closed = false;
  failure = none;
  history = history;
}

module _ (b d : RaftCore) (r : RaftReady) (history : List PersistBatch) (t : Stepped b d) where
  next_entries-Delta :
      Sound b → Delta b d r → next_entries (batch_of r) (image b history) ≡ ok d.entries
  unfolding next_entries
  next_entries-Delta s x =
      rw (next_entries, truncated-ok r.truncate_from b s.log.contiguous x.beyond)
        (extended-Contiguous b.snapshot (cut r.truncate_from b.entries) r.unstable_entries (
            subst (Contiguous (suc (boundary b.snapshot))) x.logged (
              subst (λ p. Contiguous (suc (boundary p)) d.entries) t.same_snapshot
                t.sound.log.contiguous))
          ∙ ap ok (sym x.logged))

  write_hard_state-Delta :
      Delta b d r
      → write_hard_state r.hard_state (image b history)
        ≡ (ok tt, stored (hard_state d) b.entries b history)
  unfolding write_hard_state
  write_hard_state-Delta x = elim x.synced [
    | inl p ↦ rw p.0 (cc p.1)
    | inr e ↦ rw e (ground (arith, x.term_grows, x.commit_grows))
  ]

  persist-Delta :
      Sound b
      → Delta b d r
      → persist (batch_of r) (image b history) ≡ (ok tt, image d (history ++ batch_of r ∷ []))
  unfolding persist write_batch write_applied
  persist-Delta s x =
      rw (next_entries-Delta s x, write_hard_state-Delta x, x.no_snapshot)
        (cc (t.same_snapshot, t.same_applied))

Mirrored-step :
    (b : RaftCore) (history : List PersistBatch) (out : Result Error (Option RaftReady))
    (d : RaftCore)
    → Sound b
    → Stepped b d
    → Told b (out, d)
    → Mirrored b history (out, d)
Mirrored-step b history (ok (some r)) d s t x = persist-Delta b d r history t s x
Mirrored-step b history (ok none) d s t x = cc (x.0, x.1, t.same_snapshot, t.same_applied)
Mirrored-step b history (err e) d s t (inl x) = inl (ap (λ c. image c history) (sym x))
Mirrored-step b history (err e) d s t (inr x) = inr x

-- On a sound object whose outstanding Ready is consistent, and an event whose message, if it is one,
-- carries entries in the order of their indexes. An open storage with no injected failure holds the
-- old object's state. If the step returns a Ready, then persisting it succeeds, and the storage holds
-- the new object's state; if it returns without a Ready, the storage holds that already. If it throws,
-- the storage holds that already as well, save where the error is that the entries of a request
-- overwrite a committed one or leave a gap. Then the storage may lack the new term and log; the new
-- object is sound and keeps the entries committed before, its term and commit index are not below the
-- old ones, and in the same term a vote is kept.
pub step-persist :
    (event : RaftEvent) (b : RaftCore) (history : List PersistBatch)
    → ((m : RaftMessage) → event ≡ message m → addressed m b ≡ true → Ordered m)
    → Sound b
    → Pending b
    → Mirrored b history (step event b)
step-persist event b history g s p =
    Mirrored-step b history (step event b).0 (step event b).1 s (step-Stepped event b s p).1
      (step-Told event b g s)

-- The options of a node that restarts with what a storage loaded.
abbrev pub restarted : RaftCoreOptions → PersistedRaftState → RaftCoreOptions
restarted o p = record o { persisted = some p }

-- What a storage that holds the core's state loads.
abbrev pub memory_of : RaftCore → PersistedRaftState
memory_of c = record {
  hard_state = hard_state c;
  entries = c.entries;
  snapshot = c.snapshot;
  applied_index = c.applied_index;
}

abbrev pub resumed : RaftCoreOptions → RaftCore → RaftCore
resumed o c = restore (some (memory_of c)) (fresh o)

pub resumed-Sound : (o : RaftCoreOptions) (c : RaftCore) → Sound c → Sound (resumed o c)
resumed-Sound o c s = record {
  log = s.log;
  progress = record { complete = λ h p member. cc; positive = λ p q h. cc };
}

pub resumed-create :
    (o : RaftCoreOptions) (c : RaftCore)
    → create o ≡ ok (restore o.persisted (fresh o))
    → Sound c
    → create (restarted o (memory_of c)) ≡ ok (resumed o c)
unfolding create
resumed-create o c h s = ground (arith, assert_invariants-ok (resumed o c) s.log)

-- What a restart finds and makes of the core `c` that stopped.
pub record Restarted (o : RaftCoreOptions) (c : RaftCore) (history : List PersistBatch)
    : Type 0 where
  pub loads : load (image c history) ≡ (ok (memory_of c), image c history)
  pub core : RaftCore
  pub creates : create (restarted o (memory_of c)) ≡ ok core
  pub sound : Sound core
  pub term : core.current_term ≡ c.current_term
  pub vote : core.voted_for ≡ c.voted_for
  pub commit : core.commit_index ≡ c.commit_index
  pub applied : core.applied_index ≡ c.applied_index
  pub snapshot : core.snapshot ≡ c.snapshot
  pub entries : core.entries ≡ c.entries
  pub identity :
      (core.node_id ≡ o.node_id) × (core.cluster_id ≡ o.cluster_id) × (core.members ≡ o.members)
  pub role : core.role ≡ follower
  pub no_leader : core.leader_id ≡ none
  pub idle : core.outstanding ≡ none

-- For options that the constructor accepts, a restart from an open storage with no injected failure
-- that holds a sound core's state succeeds: the storage loads and keeps that state, and the
-- constructor accepts it. The new core is sound, with the identity that the options give it and the
-- old term, vote, commit index, applied index, snapshot and log, and is a follower that knows no
-- leader and has no Ready outstanding.
pub restart :
    (o : RaftCoreOptions) (c : RaftCore) (history : List PersistBatch)
    → create o ≡ ok (restore o.persisted (fresh o))
    → Sound c
    → Restarted o c history
unfolding load
restart o c history h s = record {
  loads = refl;
  core = resumed o c;
  creates = resumed-create o c h s;
  sound = resumed-Sound o c s;
  term = refl;
  vote = refl;
  commit = refl;
  applied = refl;
  snapshot = refl;
  entries = refl;
  identity = (refl, refl, refl);
  role = refl;
  no_leader = refl;
  idle = refl;
}
