-- ===== src/Storage/Batches.antt =====
-- What `persist` does to the list of entries: the loop that pops and the loop that pushes.
use node_raft_rsm.Base.{
  ℕ, suc, ◌+◌, ◌≡◌, refl, sym, ◌∙◌, subst, inl, inr, true, length, ltb, leb, if◌then◌else◌, Option,
  List, [], ◌∷◌, ◌++◌, ok, arith, Bool-cases,
}
use mathlib.Core.List.{append-nil, append_assoc}
use node_raft_rsm.Types.{LogEntry, Snapshot}
use node_raft_rsm.Core.State.{boundary}
use node_raft_rsm.Core.Log.{Contiguous, below, below-nil, last_index-Contiguous}
use node_raft_rsm.Storage.{pop_from, extended}

abbrev put_back : ℕ → LogEntry → List LogEntry → List LogEntry
put_back k e [] = if leb k e.index then [] else e ∷ []
put_back k e (f ∷ fs) = e ∷ f ∷ fs

pop_from-cons :
    (k : ℕ) (e : LogEntry) (es : List LogEntry) → pop_from k (e ∷ es) ≡ put_back k e (pop_from k es)
unfolding pop_from
pop_from-cons k e es = refl

put_back-kept :
    (k : ℕ) (e : LogEntry) (fs : List LogEntry) → ltb e.index k ≡ true → put_back k e fs ≡ e ∷ fs
put_back-kept k e [] h = ground arith
put_back-kept k e (f ∷ fs) h = refl

pub pop_from-below : (n k : ℕ) (es : List LogEntry) → Contiguous n es → pop_from k es ≡ below k es
unfolding pop_from
pop_from-below n k [] c = refl
pop_from-below n k (e ∷ es) c = elim (Bool-cases (ltb e.index k)) [
  | inl h ↦
      pop_from-cons k e es
      ∙ (rw (pop_from-below (suc n) k es c.1, h) (put_back-kept k e (below k es) h))
  | inr h ↦
      pop_from-cons k e es
      ∙ (rw (pop_from-below (suc n) k es c.1, h, below-nil (suc n) k es (ground arith) c.1)
          (ground arith))
]

Contiguous-front :
    (n : ℕ) (xs : List LogEntry) (e : LogEntry) (es : List LogEntry)
    → Contiguous n (xs ++ e ∷ es)
    → Contiguous n xs × (e.index ≡ n + length xs)
Contiguous-front n [] e es c = (tt, omega (arith, c.0))
Contiguous-front n (x ∷ xs) e es c =
    let (front, at) = Contiguous-front (suc n) xs e es c.1 in ((c.0, front), omega (arith, at))

-- Entries that go on where the list ends are all pushed.
pub extended-Contiguous :
    (s : Option Snapshot) (next es : List LogEntry)
    → Contiguous (suc (boundary s)) (next ++ es)
    → extended s next es ≡ ok (next ++ es)
unfolding extended
extended-Contiguous s next [] c = rw (append-nil next) refl
extended-Contiguous s next (e ∷ es) c =
    let (front, at) = Contiguous-front (suc (boundary s)) next e es c in
    let regroup = append_assoc next (e ∷ []) es in
    ground (
      arith,
      last_index-Contiguous s next front,
      at,
      extended-Contiguous s (next ++ e ∷ []) es
          (subst (Contiguous (suc (boundary s))) (sym regroup) c),
      regroup,
    )
