-- ===== src/Durable/Growth.antt =====
-- What a call of `persist` on the durable state changes: all of it or nothing, and never back.
use node_raft_rsm.Base.{
  ℕ, suc, ◌&&◌, not, Text, ◌+◌, ◌≤◌, ◌<◌, ◌≡◌, refl, sym, ◌∙◌, ap, subst, inl, inr, false, same,
  same→eq, last?, leb, ◌==◌, Option, none, some, List, [], ◌∷◌, ◌++◌, Result, ok, arith, Bool-cases,
  Result-cases,
}
use mathlib.Core.List.{append-nil, append_assoc}
use node_raft_rsm.Types.{NodeId, HardState, LogEntry, Snapshot, PersistBatch}
use node_raft_rsm.Core.State.{boundary, last_index, find_entry}
use node_raft_rsm.Core.Log.{
  Contiguous, Contiguous-snoc, Contiguous-below, last_index-Contiguous, find_entry-below,
  find_entry-append, find_entry-none, find_entry-some,
}
use node_raft_rsm.Core.Sound.{LogOk}
use node_raft_rsm.Core.Accounts.{cut}
use node_raft_rsm.Storage.{pop_from}
use node_raft_rsm.Storage.Batches.{pop_from-below}
use node_raft_rsm.Durable.{
  DurableError, DurableMemoryStorageState, shortened, lengthened, same_vote, has_voted,
  check_hard_state, check_applied, entries_after,
}

ok-injective :
    (a b : List LogEntry) → ◌≡◌ {A = Result DurableError (List LogEntry)} (ok a) (ok b) → a ≡ b
ok-injective a b h = cc

pub lengthened-ok :
    (s : Option Snapshot) (next es out : List LogEntry)
    → lengthened s next es ≡ ok out
    → Contiguous (suc (boundary s)) next
    → (out ≡ next ++ es) × Contiguous (suc (boundary s)) out
unfolding lengthened
lengthened-ok s next [] out h c =
    (cc (h, append-nil next), subst (Contiguous (suc (boundary s))) (ok-injective next out h) c)
lengthened-ok s next (e ∷ es) out h c =
    elim (Bool-cases (e.index == last_index (last? next) s + 1)) [
      | inl g ↦
          let last = last_index-Contiguous s next c in
          let more = Contiguous-snoc (suc (boundary s)) next e c (ground (arith, last)) in
          let (joined, k) = lengthened-ok s (next ++ e ∷ []) es out (ground arith) more in
          (joined ∙ append_assoc next (e ∷ []) es, k)
      | inr g ↦ absurd (ground arith)
    ]

shortened-ok :
    (n : ℕ) (k : Option ℕ) (commit : ℕ) (es out : List LogEntry)
    → shortened k commit es ≡ ok out
    → Contiguous n es
    → (out ≡ cut k es) × Contiguous n out × ((i : ℕ) → k ≡ some i → commit < i)
unfolding shortened
shortened-ok n none commit es out h c =
    (cc, subst (Contiguous n) (ok-injective es out h) c, λ i e. cc)
shortened-ok n (some k) commit es out h c = elim (Bool-cases (leb k commit)) [
  | inl g ↦ absurd (ground arith)
  | inr g ↦
      let popped = pop_from-below n k es c in
      let new = ok-injective out (pop_from k es) (ground arith) ∙ popped in
      (new, subst (Contiguous n) (sym new) (Contiguous-below n k es c), λ i e. ground arith)
]

-- The new list of entries, if `persist` gets so far.
pub record Rewritten (b : PersistBatch) (s : DurableMemoryStorageState) (out : List LogEntry)
    : Type 0 where
  pub logged : out ≡ cut b.truncate_from s.entries ++ b.entries
  pub contiguous : Contiguous (suc (boundary s.snapshot)) out
  pub beyond : (i : ℕ) → b.truncate_from ≡ some i → s.hard_state.commit_index < i

pub entries_after-ok :
    (b : PersistBatch) (s : DurableMemoryStorageState) (out : List LogEntry)
    → entries_after b s ≡ ok out
    → Contiguous (suc (boundary s.snapshot)) s.entries
    → Rewritten b s out
unfolding entries_after
entries_after-ok b s out h c =
    elim (Result-cases (shortened b.truncate_from s.hard_state.commit_index s.entries)) [
      | inl (kept, e) ↦
          let (short, k, beyond) =
            shortened-ok _ b.truncate_from s.hard_state.commit_index s.entries kept e c in
          let (long, l) = lengthened-ok s.snapshot kept b.entries out (ground arith) k in
          record { logged = rw (sym short) long; contiguous = l; beyond = beyond }
      | inr (x, e) ↦ absurd (ground arith)
    ]

vote-kept :
    (old new : Option NodeId) (v : NodeId)
    → (has_voted old && not (same_vote new old)) ≡ false
    → old ≡ some v
    → new ≡ some v
vote-kept none new v h e = cc
vote-kept (some w) none v h e = absurd (ground arith)
vote-kept (some w) (some u) v h e = elim (Bool-cases (same u w)) [
  | inl g ↦ cc (same→eq u w g, e)
  | inr g ↦ absurd (ground arith)
]

-- What the tests on the hard state leave.
pub record Allowed (old new : HardState) (last : ℕ) : Type 0 where
  pub term_grows : old.current_term ≤ new.current_term
  pub vote_kept :
      (v : NodeId)
      → new.current_term ≡ old.current_term
      → old.voted_for ≡ some v
      → new.voted_for ≡ some v
  pub commit_grows : old.commit_index ≤ new.commit_index
  pub bounded : new.commit_index ≤ last

pub check_hard_state-Allowed :
    (old new : HardState) (last : ℕ) → check_hard_state old new last ≡ ok tt → Allowed old new last
unfolding check_hard_state
check_hard_state-Allowed old new last h = record {
  term_grows = ground arith;
  vote_kept = λ v t e. vote-kept old.voted_for new.voted_for v (ground arith) e;
  commit_grows = ground arith;
  bounded = ground arith;
}

pub check_applied-ok :
    (old new commit : ℕ) → check_applied old new commit ≡ ok tt → (old ≤ new) × (new ≤ commit)
unfolding check_applied
check_applied-ok old new commit h = (ground arith, ground arith)

-- The log of the state is contiguous behind its snapshot, the commit index lies in it, and the
-- applied index is no higher.
abbrev pub Intact : DurableMemoryStorageState → Type 0
Intact s = LogOk s.snapshot s.entries s.hard_state.commit_index s.applied_index

-- What stays, and what only rises, from the state `s` to `t`.
pub record Grew (s t : DurableMemoryStorageState) : Type 0 where
  pub intact : Intact t
  pub term_grows : s.hard_state.current_term ≤ t.hard_state.current_term
  pub vote_kept :
      (v : NodeId)
      → t.hard_state.current_term ≡ s.hard_state.current_term
      → s.hard_state.voted_for ≡ some v
      → t.hard_state.voted_for ≡ some v
  pub commit_grows : s.hard_state.commit_index ≤ t.hard_state.commit_index
  pub applied_grows : s.applied_index ≤ t.applied_index

pub unchanged-Grew :
    (s : DurableMemoryStorageState) (f : Option Text) → Intact s → Grew s (record s { failure = f })
unchanged-Grew s f i = record {
  intact = i;
  term_grows = omega arith;
  vote_kept = λ v t e. e;
  commit_grows = omega arith;
  applied_grows = omega arith;
}

found-cut :
    (k : Option ℕ) (es : List LogEntry) (i : ℕ)
    → ((n : ℕ) → k ≡ some n → i < n)
    → find_entry (cut k es) i ≡ find_entry es i
found-cut none es i above = refl
found-cut (some n) es i above = find_entry-below n i es (above n refl)

-- The entries up to the commit index stay where they are.
pub Rewritten-found :
    (b : PersistBatch) (s : DurableMemoryStorageState) (out : List LogEntry) (i : ℕ)
    → Intact s
    → Rewritten b s out
    → i ≤ s.hard_state.commit_index
    → find_entry out i ≡ find_entry s.entries i
Rewritten-found b s out i w r l = elim (Bool-cases (leb i (boundary s.snapshot))) [
  | inl g ↦
      find_entry-none _ i out r.contiguous (ground arith)
      ∙ sym (find_entry-none _ i s.entries w.contiguous (ground arith))
  | inr g ↦
      let (e, found, at) =
        find_entry-some _ i s.entries w.contiguous (ground arith) (omega (arith, l, w.ceiling)) in
      let same_cut =
        found-cut b.truncate_from s.entries i (λ n h. omega (arith, r.beyond n h, l)) in
      ap (λ es. find_entry es i) r.logged
      ∙ find_entry-append (cut b.truncate_from s.entries) b.entries i
      ∙ (rw (same_cut, found) refl)
]
