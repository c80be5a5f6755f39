-- ===== src/Primitives/Draws.antt =====
-- packages/raft-testing/src/primitives.ts: the numbers that `integer` draws.
use native.Mathlib.Nat.{div-lt_iff_lt-mul, mul-le-mul_right}
use node_raft_rsm.Base.{
  ℕ, ◌-◌, ◌*◌, ◌/◌, ◌≤◌, ◌<◌, ◌≡◌, refl, inl, inr, true, arith, Result, ok, err, Bool-cases,
}
use node_raft_rsm.Primitives.Doubles.{ℤ, size, ◌≤ℤ◌, ◌<ℤ◌, span, add_ℕ, to_double, to_double-above}
use node_raft_rsm.Primitives.{
  word, max_safe, SeededRandom, draw_of, stirred, next_draw, PrimitiveError, invalid_range, Number,
  whole, fractional, range_valid, integer, scaled,
}

draw-below : (state : ℕ) → draw_of state < word
draw-below state = omega arith

-- The product rounded from a difference rounded stays below the range.
scaled-below :
    (draw range : ℕ) → draw < word → 0 < range → to_double (draw * to_double range) / word < range
scaled-below draw range h r =
    let most : draw * to_double range ≤ (word - 1) * to_double range =
      mul-le-mul_right (to_double range) (omega (arith, h)) in
    (div-lt_iff_lt-mul (omega arith)).1
      (omega (arith, to_double-above range, to_double-above (draw * to_double range), most, r))

-- Two safe integers, the first below the second.
abbrev pub Valid : Number → Number → Type 0
Valid (whole a) (whole b) = (size a ≤ max_safe) × (size b ≤ max_safe) × (a <ℤ b)
Valid (whole a) fractional = ⊥
Valid fractional maximum = ⊥

abbrev pub Lies : Number → Number → ℤ → Type 0
Lies (whole a) (whole b) z = (a ≤ℤ z) × (z <ℤ b)
Lies (whole a) fractional z = ⊥
Lies fractional maximum z = ⊥

abbrev pub Drawn : Number → Number → SeededRandom → Result PrimitiveError ℤ × SeededRandom → Type 0
Drawn minimum maximum r (ok z, s) =
    Valid minimum maximum × Lies minimum maximum z × (s ≡ (next_draw r).1)
Drawn minimum maximum r (err e, s) = (e ≡ invalid_range) × (¬ Valid minimum maximum) × (s ≡ r)

range_valid-Valid : (a b : ℤ) → range_valid a b ≡ true → Valid (whole a) (whole b)
range_valid-Valid a b v = (ground arith, ground arith, ground arith)

Valid-range_valid : (a b : ℤ) → Valid (whole a) (whole b) → range_valid a b ≡ true
Valid-range_valid a b v = ground (arith, v.0, v.1, v.2)

add_ℕ-Lies : (a b : ℤ) (n : ℕ) → n < span a b → Lies (whole a) (whole b) (add_ℕ a n)
add_ℕ-Lies a b n h = (ground (arith, h), ground (arith, h))

draw-Drawn :
    (a b : ℤ) (r : SeededRandom)
    → range_valid a b ≡ true
    → Drawn (whole a) (whole b) r (scaled a b (next_draw r))
unfolding next_draw
draw-Drawn a b r v =
    let valid = range_valid-Valid a b v in
    let small =
      scaled-below (draw_of (stirred r)) (span a b) (draw-below (stirred r))
        (omega (arith, valid.2)) in
    (valid, add_ℕ-Lies a b _ small, refl)

-- `integer`, on every pair of numbers and every state of the generator. If it returns, then the bounds
-- are safe integers, negative ones among them, the minimum below the maximum; the result, with the
-- difference and the product rounded to doubles, is at least the minimum and below the maximum; and
-- one number has been drawn from the generator. If it throws, the error is that of an invalid range,
-- the bounds are not such, and the generator is as it was.
pub integer-Drawn :
    (minimum maximum : Number) (r : SeededRandom)
    → Drawn minimum maximum r (integer minimum maximum r)
unfolding integer
integer-Drawn (whole a) (whole b) r = elim (Bool-cases (range_valid a b)) [
  | inl v ↦ rw (v, integer) (draw-Drawn a b r v)
  | inr v ↦ rw (v, integer) (refl, λ h. cc (Valid-range_valid a b h, v), refl)
]
integer-Drawn (whole a) fractional r = (refl, λ h. h, refl)
integer-Drawn fractional maximum r = (refl, λ h. h, refl)
