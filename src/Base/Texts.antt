-- ===== src/Base/Texts.antt =====
-- JavaScript strings as their UTF-16 code units; byte arrays as their bytes.
use Prim.Native.Nat.{ℕ}
use mathlib.Core.Path.{◌≡◌}
use mathlib.Core.Bool.{Bool, true, false, not, ◌&&◌}
use mathlib.Core.List.{List, [], ◌∷◌}
use native.Mathlib.Decide.{ℕ_discrete}
use native.Mathlib.Omega.{arith}
use node_raft_rsm.Base.Tests.{if◌then◌else◌}

abbrev pub Text : Type 0
Text = List ℕ

abbrev pub Bytes : Type 0
Bytes = List ℕ

unfoldable pub Text-discrete : Discrete Text
Text-discrete = hlevel ℕ_discrete

-- `a === b` on strings
abbrev pub same : Text → Text → Bool
same a b = elim (Text-discrete a b) [ yes _ ↦ true | no _ ↦ false ]

-- `xs.includes(a)`, `set.has(a)`
abbrev pub has : Text → List Text → Bool
has a [] = false
has a (x ∷ xs) = let rest = has a xs in if same x a then true else rest

-- `new Set(xs).size === xs.length`
abbrev pub distinct : List Text → Bool
distinct [] = true
distinct (x ∷ xs) = not (has x xs) && distinct xs

pub same_refl : (a : Text) → same a a ≡ true
same_refl a = ground arith

pub same→eq : (a b : Text) → same a b ≡ true → a ≡ b
same→eq a b h = ground arith
