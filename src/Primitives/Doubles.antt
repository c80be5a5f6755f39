-- ===== src/Primitives/Doubles.antt =====
-- The arithmetic of packages/raft-testing/src/primitives.ts on doubles: whole numbers, and a number
-- rounded to the 53 bits of a double.
use native.Mathlib.Nat.{mod-le}
use node_raft_rsm.Base.{
  ℕ, zero, suc, ◌+◌, ◌-◌, ◌*◌, ◌/◌, ◌%◌, ◌≤◌, ◌<◌, ◌==◌, Bool, ◌&&◌, ◌||◌, ltb, leb, if◌then◌else◌,
  arith, Bool-cases, inl, inr, true, ◌≡◌, refl,
}

-- `negsuc n` is -(n + 1).
pub data ℤ : Type 0 where
  pos : ℕ → ℤ
  negsuc : ℕ → ℤ

abbrev pub pos_part : ℤ → ℕ
pos_part (pos n) = n
pos_part (negsuc n) = 0

abbrev pub neg_part : ℤ → ℕ
neg_part (pos n) = 0
neg_part (negsuc n) = suc n

abbrev pub size : ℤ → ℕ
size (pos n) = n
size (negsuc n) = suc n

abbrev pub sub_ℕ : ℕ → ℕ → ℤ
sub_ℕ a b = if leb b a then pos (a - b) else negsuc (b - a - 1)

infix 50 ◌≤ℤ◌ ◌<ℤ◌
abbrev pub ◌≤ℤ◌ : ℤ → ℤ → Type 0
a ≤ℤ b = pos_part a + neg_part b ≤ pos_part b + neg_part a

abbrev pub ◌<ℤ◌ : ℤ → ℤ → Type 0
a <ℤ b = pos_part a + neg_part b < pos_part b + neg_part a

abbrev pub ltb_ℤ : ℤ → ℤ → Bool
ltb_ℤ a b = ltb (pos_part a + neg_part b) (pos_part b + neg_part a)

-- b - a, where a is not above b
abbrev pub span : ℤ → ℤ → ℕ
span a b = (pos_part b + neg_part a) - (pos_part a + neg_part b)

abbrev pub add_ℕ : ℤ → ℕ → ℤ
add_ℕ a n = sub_ℕ (pos_part a + n) (neg_part a)

abbrev pub precision : ℕ
precision = 0x20000000000000

-- The weight of the last of the 53 bits. With 64 rounds this is right below 2^117.
unfoldable pub unit_of : ℕ → ℕ → ℕ
unit_of zero n = 1
unit_of (suc rounds) n =
    let half = unit_of rounds (n / 2) in if ltb n precision then 1 else 2 * half

-- To the nearest multiple of the unit, and of two as near to the even one.
abbrev pub round_to : ℕ → ℕ → ℕ
round_to unit n =
    if ltb (2 * (n % unit)) unit || (2 * (n % unit) == unit && n / unit % 2 == 0)
    then n - n % unit
    else n - n % unit + unit

unfoldable pub to_double : ℕ → ℕ
to_double n = round_to (unit_of 64 n) n

unit_of-below : (rounds n : ℕ) → precision ≤ 2 * n → unit_of rounds n * precision ≤ 2 * n
unfolding unit_of
unit_of-below zero n h = omega (arith, h)
unit_of-below (suc rounds) n h = elim (Bool-cases (ltb n precision)) [
  | inl g ↦ rw g (omega (arith, h))
  | inr g ↦
      let big : precision ≤ n = ground arith in
      rw g (omega (arith, unit_of-below rounds (n / 2) (omega (arith, big))))
]

unit_of-exact : (rounds n : ℕ) → n < precision → unit_of rounds n ≡ 1
unfolding unit_of
unit_of-exact zero n h = refl
unit_of-exact (suc rounds) n h = let small : ltb n precision ≡ true = ground arith in rw small refl

round_to-above : (unit n : ℕ) → 2 * round_to unit n ≤ 2 * n + unit
round_to-above unit n = elim (Bool-cases (ltb (2 * (n % unit)) unit)) [
  | inl g ↦ rw g (omega arith)
  | inr g ↦
      let half : unit ≤ 2 * (n % unit) = ground arith in
      elim (Bool-cases (2 * (n % unit) == unit && n / unit % 2 == 0)) [
        | inl f ↦ rw (g, f) (omega arith)
        | inr f ↦ rw (g, f) (omega (arith, half, mod-le n unit))
      ]
]

-- A number below 2^53 is exact.
pub to_double-exact : (n : ℕ) → n < precision → to_double n ≡ n
unfolding to_double
to_double-exact n h = rw (unit_of-exact 64 n h) (ground arith)

-- Rounding adds at most a 2^53th.
pub to_double-above : (n : ℕ) → precision * to_double n ≤ (precision + 1) * n
unfolding to_double
to_double-above n = elim (Bool-cases (ltb n precision)) [
  | inl g ↦ let exact = to_double-exact n (ground arith) in omega (arith, exact)
  | inr g ↦
      let big : precision ≤ 2 * n = ground arith in
      omega (arith, round_to-above (unit_of 64 n) n, unit_of-below 64 n big)
]
