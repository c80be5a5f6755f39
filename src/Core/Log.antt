-- ===== src/Core/Log.antt =====
-- Lists of log entries whose indexes are consecutive: look-up, truncation and extension.
use node_raft_rsm.Base.{
  ℕ, suc, ◌+◌, ◌≤◌, ◌<◌, ◌≡◌, refl, true, keep, last?, length, ltb, ◌==◌, Option, none, some, List,
  [], ◌∷◌, ◌++◌, arith, Bool-cases, inl, inr,
}
use node_raft_rsm.Types.{LogEntry, Snapshot}
use node_raft_rsm.Core.State.{find_entry, boundary, last_index}
use node_raft_rsm.Core.Step.{contiguous_from}

-- The indexes are n, n + 1, n + 2, …
abbrev pub Contiguous : ℕ → List LogEntry → Type 0
Contiguous n [] = Unit {0}
Contiguous n (e ∷ es) = (e.index ≡ n) × Contiguous (suc n) es

pub contiguous_from-Contiguous :
    (n : ℕ) (es : List LogEntry) → Contiguous n es → contiguous_from n es ≡ true
unfolding contiguous_from
contiguous_from-Contiguous n [] h = refl
contiguous_from-Contiguous n (e ∷ es) h = ground (arith, contiguous_from-Contiguous (suc n) es h.1)

pub Contiguous-contiguous_from :
    (n : ℕ) (es : List LogEntry) → contiguous_from n es ≡ true → Contiguous n es
unfolding contiguous_from
Contiguous-contiguous_from n [] h = tt
Contiguous-contiguous_from n (e ∷ es) h =
    (ground arith, Contiguous-contiguous_from (suc n) es (ground arith))

last-cons :
    (n : ℕ) (e : LogEntry) (es : List LogEntry) (s : Option Snapshot)
    → Contiguous n (e ∷ es)
    → last_index (last? (e ∷ es)) s ≡ n + length es
unfolding last_index
last-cons n e [] s h = omega (arith, h.0)
last-cons n e (f ∷ es) s h = omega (arith, last-cons (suc n) f es s h.1)

-- The last index of a log that starts behind the snapshot.
pub last_index-Contiguous :
    (s : Option Snapshot) (es : List LogEntry)
    → Contiguous (suc (boundary s)) es
    → last_index (last? es) s ≡ boundary s + length es
unfolding last_index
last_index-Contiguous s [] h = omega arith
last_index-Contiguous s (e ∷ es) h = omega (arith, last-cons (suc (boundary s)) e es s h)

pub Contiguous-snoc :
    (n : ℕ) (es : List LogEntry) (e : LogEntry)
    → Contiguous n es
    → e.index ≡ n + length es
    → Contiguous n (es ++ e ∷ [])
Contiguous-snoc n [] e h i = (omega arith, tt)
Contiguous-snoc n (f ∷ es) e h i = (h.0, Contiguous-snoc (suc n) es e h.1 (omega arith))

-- `entries.filter((entry) => entry.index < k)`
abbrev pub below : ℕ → List LogEntry → List LogEntry
below k = keep (λ e. ltb e.index k)

pub below-nil : (n k : ℕ) (es : List LogEntry) → k ≤ n → Contiguous n es → below k es ≡ []
below-nil n k [] h c = refl
below-nil n k (e ∷ es) h c = ground (arith, below-nil (suc n) k es (omega arith) c.1)

pub Contiguous-below : (n k : ℕ) (es : List LogEntry) → Contiguous n es → Contiguous n (below k es)
Contiguous-below n k [] c = tt
Contiguous-below n k (e ∷ es) c = elim (Bool-cases (ltb e.index k)) [
  | inl h ↦ rw h (c.0, Contiguous-below (suc n) k es c.1)
  | inr h ↦ rw (h, below-nil (suc n) k es (ground arith) c.1) tt
]

pub length-below :
    (n k : ℕ) (es : List LogEntry)
    → Contiguous n es
    → n ≤ k
    → k ≤ n + length es
    → n + length (below k es) ≡ k
length-below n k [] c l h = omega arith
length-below n k (e ∷ es) c l h = elim (Bool-cases (ltb e.index k)) [
  | inl g ↦ rw g (omega (arith, length-below (suc n) k es c.1 (ground arith) (omega arith)))
  | inr g ↦ rw (g, below-nil (suc n) k es (ground arith) c.1) (ground arith)
]

pub find_entry-below :
    (k i : ℕ) (es : List LogEntry) → i < k → find_entry (below k es) i ≡ find_entry es i
unfolding find_entry
find_entry-below k i [] h = refl
find_entry-below k i (e ∷ es) h = ground (arith, find_entry-below k i es h)

abbrev pub or_else : Option LogEntry → Option LogEntry → Option LogEntry
or_else none b = b
or_else (some a) b = some a

pub find_entry-append :
    (xs ys : List LogEntry) (i : ℕ)
    → find_entry (xs ++ ys) i ≡ or_else (find_entry xs i) (find_entry ys i)
unfolding find_entry
find_entry-append [] ys i = refl
find_entry-append (x ∷ xs) ys i = ground (arith, find_entry-append xs ys i)

pub find_entry-none :
    (n i : ℕ) (es : List LogEntry) → Contiguous n es → i < n → find_entry es i ≡ none
unfolding find_entry
find_entry-none n i [] c h = refl
find_entry-none n i (e ∷ es) c h = ground (arith, find_entry-none (suc n) i es c.1 (omega arith))

pub find_entry-beyond :
    (n i : ℕ) (es : List LogEntry) → Contiguous n es → n + length es ≤ i → find_entry es i ≡ none
unfolding find_entry
find_entry-beyond n i [] c h = refl
find_entry-beyond n i (e ∷ es) c h =
    ground (arith, find_entry-beyond (suc n) i es c.1 (omega arith))

pub find_entry-some :
    (n i : ℕ) (es : List LogEntry)
    → Contiguous n es
    → n ≤ i
    → i < n + length es
    → (e : LogEntry) × (find_entry es i ≡ some e) × (e.index ≡ i)
unfolding find_entry
find_entry-some n i [] c l h = absurd (omega arith)
find_entry-some n i (e ∷ es) c l h = elim (Bool-cases (e.index == i)) [
  | inl g ↦ (e, ground arith, ground arith)
  | inr g ↦
      let (f, found, at) = find_entry-some (suc n) i es c.1 (ground arith) (omega arith) in
      (f, rw g found, at)
]

-- What is found stands in the log's range.
pub find_entry-range :
    (n i : ℕ) (es : List LogEntry) (e : LogEntry)
    → Contiguous n es
    → find_entry es i ≡ some e
    → (n ≤ i) × (i < n + length es) × (e.index ≡ i)
unfolding find_entry
find_entry-range n i [] e c h = cc
find_entry-range n i (f ∷ es) e c h = elim (Bool-cases (f.index == i)) [
  | inl g ↦ (ground arith, ground arith, ground arith)
  | inr g ↦
      let (l, u, at) = find_entry-range (suc n) i es e c.1 (ground arith) in
      (omega (arith, l), omega (arith, u), at)
]
