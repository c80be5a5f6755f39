-- ===== src/Primitives/Tasks.antt =====
-- packages/raft-testing/src/primitives.ts: the queue of the virtual clock, sorted by time.
use node_raft_rsm.Base.{
  ℕ, suc, ◌+◌, ◌-◌, ◌≤◌, ◌≡◌, refl, ◌⊎◌, inl, inr, leb, arith, List, [], ◌∷◌, ◌++◌, All, All-mono,
  In, Bool-cases,
}
use node_raft_rsm.Primitives.{Task, insert_task, sort_tasks}

module _ {C : Type 0} where
  abbrev pub Sorted : List (Task C) → Type 0
  Sorted [] = Unit {0}
  Sorted (t ∷ ts) = All (λ u. t.at ≤ u.at) ts × Sorted ts

  -- The history, newest first: no task was run before one with an earlier time.
  abbrev pub Falling : List (Task C) → Type 0
  Falling [] = Unit {0}
  Falling (t ∷ ts) = All (λ u. u.at ≤ t.at) ts × Falling ts

  insert-All :
      (P : Task C → Type 0) (x : Task C) (ts : List (Task C))
      → P x
      → All P ts
      → All P (insert_task x ts)
  insert-All P x [] p h = (p, tt)
  insert-All P x (y ∷ ys) p h = elim (Bool-cases (leb x.at y.at)) [
    | inl g ↦ rw g (p, h)
    | inr g ↦ rw g (h.0, insert-All P x ys p h.1)
  ]

  pub sort-All : (P : Task C → Type 0) (ts : List (Task C)) → All P ts → All P (sort_tasks ts)
  sort-All P [] h = tt
  sort-All P (t ∷ ts) h = insert-All P t (sort_tasks ts) h.0 (sort-All P ts h.1)

  insert-Sorted : (x : Task C) (ts : List (Task C)) → Sorted ts → Sorted (insert_task x ts)
  insert-Sorted x [] h = (tt, tt)
  insert-Sorted x (y ∷ ys) h = elim (Bool-cases (leb x.at y.at)) [
    | inl g ↦
        let le : x.at ≤ y.at = ground arith in
        rw g ((le, All-mono _ _ ys (λ u k. omega (arith, k, le)) h.0), h)
    | inr g ↦ rw g (insert-All (λ u. y.at ≤ u.at) x ys (ground arith) h.0, insert-Sorted x ys h.1)
  ]

  pub sort-Sorted : (ts : List (Task C)) → Sorted (sort_tasks ts)
  sort-Sorted [] = tt
  sort-Sorted (t ∷ ts) = insert-Sorted t (sort_tasks ts) (sort-Sorted ts)

  In-insert : (x t : Task C) (ts : List (Task C)) → (t ≡ x) ⊎ In t ts → In t (insert_task x ts)
  In-insert x t [] (inl e) = inl e
  In-insert x t [] (inr h) = elim h [ ]
  In-insert x t (y ∷ ys) h = elim (Bool-cases (leb x.at y.at)) [
    | inl g ↦ rw g h
    | inr g ↦ rw g (elim h [
      | inl e ↦ inr (In-insert x t ys (inl e))
      | inr k ↦ elim k [ inl e ↦ inl e | inr r ↦ inr (In-insert x t ys (inr r)) ]
    ])
  ]

  pub In-sort : (t : Task C) (ts : List (Task C)) → In t ts → In t (sort_tasks ts)
  In-sort t [] h = elim h [ ]
  In-sort t (x ∷ xs) (inl e) = In-insert x t (sort_tasks xs) (inl e)
  In-sort t (x ∷ xs) (inr h) = In-insert x t (sort_tasks xs) (inr (In-sort t xs h))

  -- How much of the time up to the target the tasks have left to go.
  abbrev pub room : ℕ → List (Task C) → ℕ
  room target [] = 0
  room target (t ∷ ts) = (suc target - t.at) + room target ts

  room-insert :
      (target : ℕ) (x : Task C) (ts : List (Task C))
      → room target (insert_task x ts) ≡ (suc target - x.at) + room target ts
  room-insert target x [] = refl
  room-insert target x (y ∷ ys) = elim (Bool-cases (leb x.at y.at)) [
    | inl g ↦ rw g refl
    | inr g ↦ rw g (omega (arith, room-insert target x ys))
  ]

  pub room-sort : (target : ℕ) (ts : List (Task C)) → room target (sort_tasks ts) ≡ room target ts
  room-sort target [] = refl
  room-sort target (t ∷ ts) =
      omega (arith, room-insert target t (sort_tasks ts), room-sort target ts)

  pub room-end :
      (target : ℕ) (ts : List (Task C)) (t : Task C)
      → room target (ts ++ t ∷ []) ≡ room target ts + (suc target - t.at)
  room-end target [] t = omega arith
  room-end target (x ∷ xs) t = omega (arith, room-end target xs t)
