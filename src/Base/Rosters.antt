-- ===== src/Base/Rosters.antt =====
-- Lists of distinct names: subsets are no longer, and two majorities share a name.
use Prim.Native.Nat.{suc, ◌+◌, ◌/◌, ◌≤◌}
use mathlib.Core.Path.{◌≡◌, refl}
use mathlib.Core.Bool.{true, false, ◌||◌}
use mathlib.Core.Logic.{inl, inr}
use mathlib.Core.Option.{none, some}
use mathlib.Core.List.{List, [], ◌∷◌, ◌++◌}
use native.Mathlib.Omega.{arith}
use node_raft_rsm.Base.Tests.{if◌then◌else◌, Option-cases}
use node_raft_rsm.Base.Lists.{length, length-append, first}
use node_raft_rsm.Base.Texts.{Text, same, has, distinct}

-- Every name of the first list is in the second.
abbrev pub Within : List Text → List Text → Type 0
Within [] ms = Unit {0}
Within (x ∷ xs) ms = (has x ms ≡ true) × Within xs ms

remove : Text → List Text → List Text
remove x [] = []
remove x (m ∷ ms) = let rest = remove x ms in if same m x then ms else m ∷ rest

length-remove :
    (x : Text) (ms : List Text) → has x ms ≡ true → length ms ≡ suc (length (remove x ms))
unfolding remove
length-remove x [] h = ground arith
length-remove x (m ∷ ms) h = ground (arith, length-remove x ms)

has-remove :
    (x y : Text) (ms : List Text) → has y ms ≡ true → same x y ≡ false → has y (remove x ms) ≡ true
unfolding remove
has-remove x y [] h n = ground arith
has-remove x y (m ∷ ms) h n = ground (arith, has-remove x y ms)

Within-remove :
    (x : Text) (xs ms : List Text) → has x xs ≡ false → Within xs ms → Within xs (remove x ms)
Within-remove x [] ms n w = tt
Within-remove x (y ∷ xs) ms n w =
    (has-remove x y ms w.0 (ground arith), Within-remove x xs ms (ground arith) w.1)

length-le : (xs ms : List Text) → distinct xs ≡ true → Within xs ms → length xs ≤ length ms
length-le [] ms d w = omega arith
length-le (x ∷ xs) ms d w =
    let shorter =
      length-le xs (remove x ms) (ground arith) (Within-remove x xs ms (ground arith) w.1) in
    omega (arith, length-remove x ms w.0, shorter)

pub has-append : (x : Text) (xs ys : List Text) → has x (xs ++ ys) ≡ (has x xs || has x ys)
has-append x [] ys = refl
has-append x (z ∷ xs) ys = ground (arith, has-append x xs ys)

-- No name of the first list is in the second.
abbrev Apart : List Text → List Text → Type 0
Apart [] ys = Unit {0}
Apart (x ∷ xs) ys = (has x ys ≡ false) × Apart xs ys

Apart-of-none : (xs ys : List Text) → first (λ x. has x ys) xs ≡ none → Apart xs ys
Apart-of-none [] ys h = tt
Apart-of-none (x ∷ xs) ys h = (ground arith, Apart-of-none xs ys (ground arith))

distinct-append :
    (xs ys : List Text)
    → distinct xs ≡ true
    → distinct ys ≡ true
    → Apart xs ys
    → distinct (xs ++ ys) ≡ true
distinct-append [] ys d e a = e
distinct-append (x ∷ xs) ys d e a =
    ground (arith, has-append x xs ys, distinct-append xs ys (ground arith) e a.1)

Within-append : (xs ys ms : List Text) → Within xs ms → Within ys ms → Within (xs ++ ys) ms
Within-append [] ys ms v w = w
Within-append (x ∷ xs) ys ms v w = (v.0, Within-append xs ys ms v.1 w)

first-has :
    (xs ys : List Text) (v : Text)
    → first (λ x. has x ys) xs ≡ some v
    → (has v xs ≡ true) × (has v ys ≡ true)
first-has [] ys v h = ground arith
first-has (x ∷ xs) ys v h = ground (arith, first-has xs ys v)

-- Two majorities of one roster share a name.
pub majorities_meet :
    (xs ys ms : List Text)
    → distinct xs ≡ true
    → distinct ys ≡ true
    → Within xs ms
    → Within ys ms
    → length ms / 2 + 1 ≤ length xs
    → length ms / 2 + 1 ≤ length ys
    → (v : Text) × (has v xs ≡ true) × (has v ys ≡ true)
majorities_meet xs ys ms dx dy wx wy qx qy = elim (Option-cases (first (λ x. has x ys) xs)) [
  | inr (v, h) ↦ let (in_xs, in_ys) = first-has xs ys v h in (v, in_xs, in_ys)
  | inl h ↦
      let fits =
        length-le (xs ++ ys) ms (distinct-append xs ys dx dy (Apart-of-none xs ys h))
          (Within-append xs ys ms wx wy) in
      absurd (omega (arith, fits, length-append xs ys))
]

pub distinct-add :
    (xs : List Text) (v : Text)
    → distinct xs ≡ true
    → has v xs ≡ false
    → distinct (xs ++ v ∷ []) ≡ true
distinct-add [] v d h = refl
distinct-add (x ∷ xs) v d h =
    ground (arith, has-append x xs (v ∷ []), distinct-add xs v (ground arith) (ground arith))

pub Within-add :
    (xs ms : List Text) (v : Text) → Within xs ms → has v ms ≡ true → Within (xs ++ v ∷ []) ms
Within-add [] ms v w h = (h, tt)
Within-add (x ∷ xs) ms v w h = (w.0, Within-add xs ms v w.1 h)
