-- ===== src/Base/Lists.antt =====
-- Lists measured by native numbers, and the list operations that the source takes from JavaScript.
use Prim.Native.Nat.{ℕ, suc, ◌+◌}
use mathlib.Core.Path.{◌≡◌, refl, sym, subst}
use mathlib.Core.Logic.{◌⊎◌, inl, inr}
use mathlib.Core.Bool.{Bool}
use mathlib.Core.Option.{Option, none, some}
use mathlib.Core.List.{List, [], ◌∷◌, ◌++◌}
use native.Mathlib.Omega.{arith}
use node_raft_rsm.Base.Tests.{if◌then◌else◌}

module _ {ℓ} {A : Type ℓ} where
  abbrev pub length : List A → ℕ
  length [] = 0
  length (x ∷ xs) = suc (length xs)

  pub length-append : (xs ys : List A) → length (xs ++ ys) ≡ length xs + length ys
  length-append [] ys = omega arith
  length-append (x ∷ xs) ys = omega (arith, length-append xs ys)

  -- `xs.at(-1)`
  abbrev pub last? : List A → Option A
  last? [] = none
  last? (x ∷ []) = some x
  last? (x ∷ y ∷ xs) = last? (y ∷ xs)

  -- `xs.filter(p)`
  abbrev pub keep : (A → Bool) → List A → List A
  keep p [] = []
  keep p (x ∷ xs) = let rest = keep p xs in if p x then x ∷ rest else rest

  -- `xs.find(p)`
  abbrev pub first : (A → Bool) → List A → Option A
  first p [] = none
  first p (x ∷ xs) = let rest = first p xs in if p x then some x else rest

  -- Every element satisfies `P`.
  abbrev pub All {κ} : (A → Type κ) → List A → Type κ
  All P [] = Unit
  All P (x ∷ xs) = P x × All P xs

  pub All-snoc {κ} : (P : A → Type κ) (xs : List A) (x : A) → All P xs → P x → All P (xs ++ x ∷ [])
  All-snoc P [] x a p = (p, tt)
  All-snoc P (y ∷ xs) x a p = (a.0, All-snoc P xs x a.1 p)

  pub last?-snoc : (xs : List A) (a : A) → last? (xs ++ a ∷ []) ≡ some a
  last?-snoc [] a = refl
  last?-snoc (x ∷ []) a = refl
  last?-snoc (x ∷ y ∷ xs) a = last?-snoc (y ∷ xs) a

-- `a` stands in the list.
abbrev pub In : {A : Type 0} → A → List A → Type 0
In a [] = ⊥
In a (x ∷ xs) = (a ≡ x) ⊎ In a xs

pub In-append_right : {A : Type 0} (xs ys : List A) (a : A) → In a ys → In a (xs ++ ys)
In-append_right [] ys a h = h
In-append_right (x ∷ xs) ys a h = inr (In-append_right xs ys a h)

pub In-append : {A : Type 0} (xs ys : List A) (a : A) → In a (xs ++ ys) → In a xs ⊎ In a ys
In-append [] ys a h = inr h
In-append (x ∷ xs) ys a (inl e) = inl (inl e)
In-append (x ∷ xs) ys a (inr h) = elim (In-append xs ys a h) [ inl p ↦ inl (inr p) | inr q ↦ inr q ]

pub All-In : {A : Type 0} (P : A → Type 0) (xs : List A) (a : A) → All P xs → In a xs → P a
All-In P [] a p h = elim h [ ]
All-In P (x ∷ xs) a p (inl e) = subst P (sym e) p.0
All-In P (x ∷ xs) a p (inr h) = All-In P xs a p.1 h

pub All-mono :
    {A : Type 0} (P Q : A → Type 0) (xs : List A) → ((a : A) → P a → Q a) → All P xs → All Q xs
All-mono P Q [] f p = tt
All-mono P Q (x ∷ xs) f p = (f x p.0, All-mono P Q xs f p.1)

pub In-append_left : {A : Type 0} (xs ys : List A) (a : A) → In a xs → In a (xs ++ ys)
In-append_left [] ys a h = elim h [ ]
In-append_left (x ∷ xs) ys a (inl e) = inl e
In-append_left (x ∷ xs) ys a (inr h) = inr (In-append_left xs ys a h)
