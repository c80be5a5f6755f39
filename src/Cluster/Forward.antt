-- ===== src/Cluster/Forward.antt =====
-- What never goes back at a node: its term, its commit and applied indexes, and its committed
-- entries.
use node_raft_rsm.Base.{
  ℕ, suc, ◌≤◌, ◌≡◌, refl, ◌∙◌, sym, ap, subst, inl, inr, true, false, same, same→eq, has, List,
  none, some, arith, ok, Bool-cases, Option-cases, ◌==◌,
}
use node_raft_rsm.Types.{NodeId, RaftReady, RaftEvent}
use node_raft_rsm.Core.State.{RaftCore, find_entry, boundary, last_log_index}
use node_raft_rsm.Core.Log.{Contiguous}
use node_raft_rsm.Core.Linked.{last-size}
use node_raft_rsm.Core.Step.{advance, step}
use node_raft_rsm.Core.Ready.{Pending, step-Stepped, advance-applies}
use node_raft_rsm.Core.Totality.{Sound}
use node_raft_rsm.Cluster.{System, update, Step, event_at, advance_at, Run, here, next, Started}
use node_raft_rsm.Cluster.Invariant.{Run-Inv, Started-Inv, create-fresh}
use node_raft_rsm.Cluster.Matching.{Run-Logged, Started-Logged}
use node_raft_rsm.Cluster.Tenure.{Run-Tenure}

pub record Healthy (c : RaftCore) : Type 0 where
  pub sound : Sound c
  pub pending : Pending c
  pub no_snapshot : c.snapshot ≡ none

record Onward (c d : RaftCore) : Type 0 where
  commit : c.commit_index ≤ d.commit_index
  applied : c.applied_index ≤ d.applied_index
  committed : (i : ℕ) → i ≤ c.commit_index → find_entry d.entries i ≡ find_entry c.entries i

Onward-refl : (c : RaftCore) → Onward c c
Onward-refl c = record { commit = omega arith; applied = omega arith; committed = λ i h. refl }

Onward-trans : (c d e : RaftCore) → Onward c d → Onward d e → Onward c e
Onward-trans c d e p q = record {
  commit = omega (arith, p.commit, q.commit);
  applied = omega (arith, p.applied, q.applied);
  committed = λ i h. q.committed i (omega (arith, h, p.commit)) ∙ p.committed i h;
}

step-Onward :
    (event : RaftEvent) (c : RaftCore)
    → Healthy c
    → Healthy (step event c).1 × Onward c (step event c).1
step-Onward event c h =
    let left = (step-Stepped event c h.sound h.pending).1 in
    (
      record {
        sound = left.sound;
        pending = left.pending;
        no_snapshot = left.same_snapshot ∙ h.no_snapshot;
      },
      record {
        commit = left.commit_grows;
        applied = omega (arith, left.same_applied);
        committed = left.committed_kept;
      },
    )

-- What `advance` leaves of the log, whatever it is given.
advance-log :
    (id : ℕ) (c : RaftCore)
    → ((advance id c).1.entries ≡ c.entries)
      × ((advance id c).1.commit_index ≡ c.commit_index)
      × ((advance id c).1.snapshot ≡ c.snapshot)
unfolding advance
advance-log id c = (ground arith, ground arith, ground arith)

refused : (id : ℕ) (c : RaftCore) → c.outstanding ≡ none → (advance id c).1 ≡ c
unfolding advance
refused id c h = ground arith

mistaken :
    (id : ℕ) (c : RaftCore) (r : RaftReady)
    → c.outstanding ≡ some r
    → (r.id == id) ≡ false
    → (advance id c).1 ≡ c
unfolding advance
mistaken id c r h g = ground arith

unchanged-Onward : (c d : RaftCore) → d ≡ c → Healthy c → Healthy d × Onward c d
unchanged-Onward c d e h = subst (λ x. Healthy x × Onward c x) (sym e) (h, Onward-refl c)

advance-Onward :
    (id : ℕ) (c : RaftCore) → Healthy c → Healthy (advance id c).1 × Onward c (advance id c).1
unfolding boundary
advance-Onward id c h = elim (Option-cases c.outstanding) [
  | inl e ↦ unchanged-Onward c _ (refused id c e) h
  | inr (r, e) ↦ elim (Bool-cases (r.id == id)) [
    | inr g ↦ unchanged-Onward c _ (mistaken id c r e g) h
    | inl g ↦
        let id_of : r.id ≡ id = ground arith in
        let floor : boundary c.snapshot ≤ c.applied_index = rw h.no_snapshot (omega arith) in
        let (done, sound, applied, idle) =
          subst
            (λ n.
              ((advance n c).0 ≡ ok tt)
              × Sound (advance n c).1
              × ((advance n c).1.applied_index ≡ c.commit_index)
              × ((advance n c).1.outstanding ≡ none))
            id_of (advance-applies c r h.sound h.pending floor e) in
        let (entries, commit, snapshot) = advance-log id c in
        (
          record {
            sound = sound;
            pending = λ q k. cc (idle, k);
            no_snapshot = snapshot ∙ h.no_snapshot;
          },
          record {
            commit = omega (arith, commit);
            applied = omega (arith, applied, h.sound.log.done);
            committed = λ i k. ap (λ es. find_entry es i) entries;
          },
        )
  ]
]

Onward-update :
    (core : NodeId → RaftCore) (i j : NodeId) (c : RaftCore)
    → Healthy c × Onward (core i) c
    → Healthy (core j)
    → Healthy (update core i c j) × Onward (core j) (update core i c j)
Onward-update core i j c p h = elim (Bool-cases (same i j)) [
  | inl e ↦ rw e (subst (λ n. Healthy c × Onward (core n) c) (same→eq i j e) p)
  | inr e ↦ rw e (h, Onward-refl (core j))
]

abbrev AllHealthy : List NodeId → System → Type 0
AllHealthy members s = (j : NodeId) → has j members ≡ true → Healthy (s.core j)

Step-Onward :
    {members : List NodeId} {s t : System}
    → Step members s t
    → AllHealthy members s
    → (j : NodeId) → has j members ≡ true
    → Healthy (t.core j) × Onward (s.core j) (t.core j)
Step-Onward {s = s} (event_at i event mine arrives) h j theirs =
    Onward-update s.core i j _ (step-Onward event (s.core i) (h i mine)) (h j theirs)
Step-Onward {s = s} (advance_at i ready mine) h j theirs =
    Onward-update s.core i j _ (advance-Onward ready (s.core i) (h i mine)) (h j theirs)

Run-Onward :
    {members : List NodeId} {s t : System}
    → AllHealthy members s
    → Run members s t
    → (j : NodeId) → has j members ≡ true
    → Healthy (t.core j) × Onward (s.core j) (t.core j)
Run-Onward {s = s} h here j theirs = (h j theirs, Onward-refl (s.core j))
Run-Onward h (next r st) j theirs =
    let (healthy, on) = Step-Onward st (λ k mine. (Run-Onward h r k mine).0) j theirs in
    (healthy, Onward-trans _ _ _ (Run-Onward h r j theirs).1 on)

fresh-Healthy : {members : List NodeId} {s : System} → Started members s → AllHealthy members s
unfolding boundary
fresh-Healthy {s = s} st i h =
    subst Healthy (sym (create-fresh (st.options i) (s.core i) (st.blank i h) (st.created i h)))
      (record {
        sound = record {
          log = record {
            contiguous = tt;
            floor = omega arith;
            ceiling = omega arith;
            done = omega arith;
          };
          progress = record { complete = λ e. cc; positive = λ p q e. cc };
        };
        pending = λ r e. cc;
        no_snapshot = refl;
      })

committed-size : (c : RaftCore) → Healthy c → c.commit_index ≤ last_log_index c
unfolding boundary
committed-size c h =
    let log = h.sound.log in
    let at : boundary c.snapshot ≡ 0 = rw h.no_snapshot refl in
    let size =
      last-size c h.no_snapshot (subst (λ n. Contiguous (suc n) c.entries) at log.contiguous) in
    omega (arith, size, at, log.ceiling)

-- A later state of a node, beside an earlier one.
pub record Later (c d : RaftCore) : Type 0 where
  pub term : c.current_term ≤ d.current_term
  pub commit : c.commit_index ≤ d.commit_index
  pub applied : c.applied_index ≤ d.applied_index
  pub in_order : (d.applied_index ≤ d.commit_index) × (d.commit_index ≤ last_log_index d)
  pub committed : (i : ℕ) → i ≤ c.commit_index → find_entry d.entries i ≡ find_entry c.entries i

-- Nothing goes back at a node. The system starts and goes on as for election safety. From a state
-- that it reaches to any later one, no member's term, commit index or applied index decreases, and
-- its log keeps every entry up to the earlier commit index; in the later state its applied index is at
-- most its commit index, and that at most the last index of its log.
pub never_back :
    {members : List NodeId} {start s t : System}
    → Started members start
    → Run members start s
    → Run members s t
    → (i : NodeId) → has i members ≡ true
    → Later (s.core i) (t.core i)
never_back {members} {start} {s} {t} st r q i mine =
    let inv = Run-Inv (Started-Inv st) r in
    let logged = Run-Logged (Started-Inv st) (Started-Logged st) r in
    let (healthy, on) = Run-Onward (λ j h. (Run-Onward (fresh-Healthy st) r j h).0) q i mine in
    record {
      term = (Run-Tenure inv logged q i).term_grows;
      commit = on.commit;
      applied = on.applied;
      in_order = (healthy.sound.log.done, committed-size (t.core i) healthy);
      committed = on.committed;
    }
