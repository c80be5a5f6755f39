-- ===== src/Core/Ready.antt =====
-- `step` and `advance` on a sound object: no invariant is violated, what is committed stays, and
-- each Ready hands over the committed entries in order, without a gap, exactly once.
use node_raft_rsm.Base.{
  ℕ, suc, ◌+◌, ◌≤◌, ◌<◌, ◌≡◌, refl, sym, ◌∙◌, subst, inl, inr, true, ◌&&◌, keep, last?, length, ltb,
  leb, ◌==◌, Option, none, some, List, [], ◌∷◌, Result, ok, err, arith, Bool-cases,
}
use node_raft_rsm.Types.{LogEntry, RaftEvent, RaftReady}
use node_raft_rsm.Core.State.{RaftCore, State, Error, find_entry, boundary, peers}
use node_raft_rsm.Core.Step.{
  make_ready, nothing_to_do, committed_entries, conclude, begin, dispatch, step_beside, step,
  acknowledge, applied_after, advance_beside, advance,
}
use node_raft_rsm.Core.Closure.{After, dispatch_Done}
use node_raft_rsm.Core.Log.{Contiguous}
use node_raft_rsm.Core.Sound.{LogOk, ProgressOk, Extends}
use node_raft_rsm.Core.Totality.{
  Totality-Refuses, Harmless, Kept, Thrown, Anything, Totality-Closed, Sound, Extends-refl,
  assert_invariants-ok,
}

-- The Ready that is out holds what is committed and not applied.
abbrev pub Pending : RaftCore → Type 0
Pending c = (r : RaftReady) → c.outstanding ≡ some r → r.committed_entries ≡ committed_entries c

-- What a step leaves, beginning with the object `b`.
pub record Stepped (b c : RaftCore) : Type 0 where
  pub sound : Sound c
  pub pending : Pending c
  pub same_snapshot : c.snapshot ≡ b.snapshot
  pub same_applied : c.applied_index ≡ b.applied_index
  pub commit_grows : b.commit_index ≤ c.commit_index
  pub committed_kept :
      (i : ℕ) → i ≤ b.commit_index → find_entry c.entries i ≡ find_entry b.entries i

Stepped-Extends : (b c : RaftCore) → Pending c → Extends b c → Stepped b c
Stepped-Extends b c p x = record {
  sound = record { log = x.log; progress = x.progress };
  pending = p;
  same_snapshot = x.same_snapshot;
  same_applied = x.same_applied;
  commit_grows = x.commit_grows;
  committed_kept = x.committed_kept;
}

abbrev Fine : RaftCore → Result Error (Option RaftReady) × RaftCore → Type 0
Fine b r = Harmless r.0 × Stepped b r.1

module _ (b : RaftCore) (idle : b.outstanding ≡ none) where
  idle-Pending : (c : RaftCore) → Extends b c → Pending c
  idle-Pending c x r h = cc (x.same_outstanding, idle, h)

  make_ready-Stepped : (s : State) → Extends b s.core → Stepped b (make_ready s).1
  unfolding make_ready
  make_ready-Stepped s x = elim (Bool-cases (nothing_to_do s)) [
    | inl h ↦ rw h (Stepped-Extends b s.core (idle-Pending s.core x) x)
    | inr h ↦ rw h (record {
      sound = record { log = x.log; progress = x.progress };
      pending = λ r e. ground arith;
      same_snapshot = x.same_snapshot;
      same_applied = x.same_applied;
      commit_grows = x.commit_grows;
      committed_kept = x.committed_kept;
    })
  ]

  conclude-Fine :
      (r : Result Error Unit) (s : State)
      → After (Anything b) (Kept b) (Thrown b) r s
      → Fine b (conclude r s)
  conclude-Fine (ok _) s x = rw (assert_invariants-ok s.core x.log) (tt, make_ready-Stepped s x)
  conclude-Fine (err e) s x = (x.0, Stepped-Extends b s.core (idle-Pending s.core x.1) x.1)

step_beside-Fine :
    (o : Option RaftReady) (event : RaftEvent) (c : RaftCore)
    → c.outstanding ≡ o
    → Sound c
    → Pending c
    → Fine c (step_beside o event c)
unfolding step_beside
step_beside-Fine (some r) event c h s p = (tt, Stepped-Extends c c p (Extends-refl c s))
step_beside-Fine none event c h s p =
    conclude-Fine c h (dispatch event (begin c)).0 (dispatch event (begin c)).1 (
      dispatch_Done (Anything c) (Kept c) (Thrown c) (Totality-Closed c) event (begin c)
        (Totality-Refuses c s) (λ m e a. tt) (refl, refl, refl) (Extends-refl c s))

-- On a sound object whose outstanding Ready, if there is one, agrees with it, no step fires an
-- assertion of `#assertInvariants` or lacks a peer's progress. Returning or throwing, it leaves a
-- sound object that has the same snapshot and applied index, a commit index that is no lower, and
-- every entry up to the old commit index unchanged.
pub step-Stepped :
    (event : RaftEvent) (c : RaftCore)
    → Sound c
    → Pending c
    → Harmless (step event c).0 × Stepped c (step event c).1
unfolding step
step-Stepped event c s p = step_beside-Fine c.outstanding event c refl s p

-- The entries with lo < index ≤ hi.
abbrev window : ℕ → ℕ → List LogEntry → List LogEntry
window lo hi = keep (λ e. ltb lo e.index && leb e.index hi)

window-beyond : (n lo hi : ℕ) (es : List LogEntry) → Contiguous n es → hi < n → window lo hi es ≡ []
window-beyond n lo hi [] c h = refl
window-beyond n lo hi (e ∷ es) c h =
    ground (arith, window-beyond (suc n) lo hi es c.1 (omega arith))

window-prefix :
    (n lo hi : ℕ) (es : List LogEntry)
    → Contiguous n es
    → lo < n
    → n ≤ suc hi
    → hi < n + length es
    → Contiguous n (window lo hi es) × (n + length (window lo hi es) ≡ suc hi)
window-prefix n lo hi [] c l u h = (tt, omega arith)
window-prefix n lo hi (e ∷ es) c l u h = elim (Bool-cases (ltb lo e.index && leb e.index hi)) [
  | inl g ↦
      let (rest, count) =
        window-prefix (suc n) lo hi es c.1 (omega arith) (ground arith) (omega arith) in
      rw g ((c.0, rest), omega (arith, count))
  | inr g ↦
      let past : hi < n = ground arith in
      rw (g, window-beyond (suc n) lo hi es c.1 (omega arith)) (tt, omega arith)
]

window-skip :
    (lo hi : ℕ) (e : LogEntry) (es : List LogEntry)
    → e.index ≤ lo
    → window lo hi (e ∷ es) ≡ window lo hi es
window-skip lo hi e es h = ground arith

-- The window of a log that reaches from below it to its end has no gap.
pub window-Contiguous :
    (n lo hi : ℕ) (es : List LogEntry)
    → Contiguous n es
    → n ≤ suc lo
    → lo ≤ hi
    → hi < n + length es
    → Contiguous (suc lo) (window lo hi es) × (lo + length (window lo hi es) ≡ hi)
window-Contiguous n lo hi [] c l u h = (tt, omega arith)
window-Contiguous n lo hi (e ∷ es) c l u h = elim (Bool-cases (leb n lo)) [
  | inl g ↦
      rw (window-skip lo hi e es (ground arith))
        (window-Contiguous (suc n) lo hi es c.1 (ground arith) u (omega arith))
  | inr g ↦
      let at : n ≡ suc lo = ground arith in
      let (rest, count) =
        window-prefix n lo hi (e ∷ es) c (omega arith) (omega arith) (omega arith) in
      (subst (λ k. Contiguous k (window lo hi (e ∷ es))) at rest, omega (arith, count))
]

-- On a sound object whose snapshot has been applied, the entries that a Ready hands over as committed
-- are exactly those after the applied index and up to the commit index, in order and without a gap.
pub committed_entries-Contiguous :
    (c : RaftCore)
    → Sound c
    → boundary c.snapshot ≤ c.applied_index
    → Contiguous (suc c.applied_index) (committed_entries c)
      × (c.applied_index + length (committed_entries c) ≡ c.commit_index)
committed_entries-Contiguous c s h =
    window-Contiguous (suc (boundary c.snapshot)) c.applied_index c.commit_index c.entries
      s.log.contiguous (omega arith) s.log.done (omega (arith, s.log.ceiling))

applied_after-Contiguous :
    (applied : ℕ) (es : List LogEntry)
    → Contiguous (suc applied) es
    → applied_after (last? es) applied ≡ applied + length es
applied_after-Contiguous applied [] h = omega arith
applied_after-Contiguous applied (e ∷ []) h = omega (arith, h.0)
applied_after-Contiguous applied (e ∷ f ∷ es) h =
    later-applied (suc applied) applied f es h.1 ∙ (omega arith)
  where
    later-applied :
        (n m : ℕ) (f : LogEntry) (es : List LogEntry)
        → Contiguous (suc n) (f ∷ es)
        → applied_after (last? (f ∷ es)) m ≡ n + suc (length es)
    later-applied n m f [] h = omega (arith, h.0)
    later-applied n m f (g ∷ es) h = omega (arith, later-applied (suc n) m g es h.1)

abbrev Advanced : RaftCore → Result Error Unit × RaftCore → Type 0
Advanced c a =
    (a.0 ≡ ok tt) × Sound a.1 × (a.1.applied_index ≡ c.commit_index) × (a.1.outstanding ≡ none)

advance_known :
    (c : RaftCore) (r : RaftReady)
    → applied_after (last? r.committed_entries) c.applied_index ≡ c.commit_index
    → LogOk c.snapshot c.entries c.commit_index
        (applied_after (last? r.committed_entries) c.applied_index)
    → ProgressOk c.role (peers c) c.progress
    → Advanced c (advance_beside (some r) r.id c)
unfolding advance_beside
advance_known c r applied log progress =
    let found : (r.id == r.id) ≡ true = ground arith in
    rw found (
      assert_invariants-ok (acknowledge r c) log,
      record { log = log; progress = progress },
      applied,
      refl,
    )

-- On a sound object whose snapshot has been applied and whose outstanding Ready agrees with it,
-- advancing past that Ready succeeds, keeps the object sound and leaves no Ready outstanding. Then
-- everything that is committed is applied.
pub advance-applies :
    (c : RaftCore) (r : RaftReady)
    → Sound c
    → Pending c
    → boundary c.snapshot ≤ c.applied_index
    → c.outstanding ≡ some r
    → ((advance r.id c).0 ≡ ok tt)
      × Sound (advance r.id c).1
      × ((advance r.id c).1.applied_index ≡ c.commit_index)
      × ((advance r.id c).1.outstanding ≡ none)
unfolding advance
advance-applies c r s p h o =
    let (run, count) = committed_entries-Contiguous c s h in
    let applied : applied_after (last? r.committed_entries) c.applied_index ≡ c.commit_index =
      rw (p r o) (applied_after-Contiguous c.applied_index (committed_entries c) run ∙ count) in
    let log : LogOk c.snapshot c.entries c.commit_index
        (applied_after (last? r.committed_entries) c.applied_index) =
      record {
        contiguous = s.log.contiguous;
        floor = s.log.floor;
        ceiling = s.log.ceiling;
        done = omega (arith, applied);
      } in
    subst (λ o. Advanced c (advance_beside o r.id c)) (sym o)
      (advance_known c r applied log s.progress)
