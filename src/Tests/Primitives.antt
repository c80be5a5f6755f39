-- ===== src/Tests/Primitives.antt =====
-- A generator, and a clock with a timer that is armed again each time that it runs.
use node_raft_rsm.Base.{ℕ, zero, suc, ◌≡◌, refl, ok, inl, inr, List, [], ◌∷◌, arith}
use node_raft_rsm.Primitives.{
  new_random, next_draw, integer, whole, VirtualClock, schedule, advance_clock,
}
use node_raft_rsm.Primitives.Doubles.{negsuc, to_double, unit_of, ℤ, pos}
use node_raft_rsm.Primitives.Draws.{Drawn, integer-Drawn}
use node_raft_rsm.Primitives.Timers.{
  Timed, Rearming, Completes, advance_clock-Returns, Schedules, schedule-Scheduled,
}

first_draw : (next_draw (new_random (pos 42))).0 ≡ 0x99e1ef7c
unfolding next_draw to_double unit_of
first_draw = refl

first_integer : (integer (whole (negsuc 4)) (whole (pos 5)) (new_random (pos 42))).0 ≡ ok (pos 1)
unfolding integer next_draw to_double unit_of
first_integer = refl

-- 2^53 + 3 stands between two doubles, and goes to the even one.
tie_to_even : to_double 0x20000000000003 ≡ 0x20000000000004
unfolding to_double unit_of
tie_to_even = refl

integer-Drawn_example :
    Drawn
      (whole (negsuc 4))
      (whole (pos 21))
      (new_random (pos 1))
      (integer (whole (negsuc 4)) (whole (pos 21)) (new_random (pos 1)))
integer-Drawn_example = integer-Drawn (whole (negsuc 4)) (whole (pos 21)) (new_random (pos 1))

-- A callback runs as many times more as its number says, every five milliseconds.
abbrev again : ℕ → ℕ → List (ℤ × ℕ)
again zero now = []
again (suc n) now = (pos 5, n) ∷ []

again-Rearming : Rearming again
again-Rearming zero now = inl refl
again-Rearming (suc n) now = inr (4, n, refl)

abbrev armed : VirtualClock ℕ
armed = record {
  now = 2;
  tasks = record { at = 3; run = 2 } ∷ record { at = 8; run = 0 } ∷ [];
  ran = [];
}

armed-Timed : Timed armed
armed-Timed = record {
  sorted = ((omega arith, tt), (tt, tt));
  ahead = (omega arith, (omega arith, tt));
  past = tt;
  order = tt;
}

advance_clock-Returns_example : Completes 12 armed (advance_clock again 20 10 armed)
advance_clock-Returns_example =
    advance_clock-Returns again again-Rearming 20 10 armed armed-Timed (omega arith)

schedule-Scheduled_example : Schedules (pos 1) 7 armed (schedule (pos 1) 7 armed)
schedule-Scheduled_example = schedule-Scheduled (pos 1) 7 armed armed-Timed
