-- ===== src/Primitives.antt =====
-- packages/raft-testing/src/primitives.ts: the seeded random numbers and the virtual clock. The
-- arithmetic on doubles is that of Primitives/Doubles, rounded as JavaScript rounds. A draw is the
-- numerator of the code's fraction of 2^32. The seed is a whole number; the times of the clock are
-- whole and not negative.
pub mod Doubles
pub mod Draws
pub mod Tasks
pub mod Timers
use Prim.Native.Nat.{bit_or, bit_xor}
use node_raft_rsm.Primitives.Doubles.{ℤ, pos, negsuc, size, ltb_ℤ, span, add_ℕ, to_double}
use node_raft_rsm.Base.{
  ℕ, zero, suc, ◌+◌, ◌-◌, ◌*◌, ◌/◌, ◌%◌, ◌==◌, Bool, false, ltb, leb, if◌then◌else◌, Option, none,
  some, List, [], ◌∷◌, ◌++◌, Result, ok, err, proceed, ◌&&◌,
}

abbrev pub word : ℕ
word = 0x100000000

abbrev pub gamma : ℕ
gamma = 0x6d2b79f5

abbrev pub max_safe : ℕ
max_safe = 0x1fffffffffffff

-- `seed >>> 0`
abbrev pub to_uint32 : ℤ → ℕ
to_uint32 (pos n) = n % word
to_uint32 (negsuc n) = word - 1 - n % word

pub record SeededRandom : Type 0 where
  pub seed : ℤ
  pub state : ℕ

abbrev pub new_random : ℤ → SeededRandom
new_random seed = record {
  seed = seed;
  state = if to_uint32 seed == 0 then gamma else to_uint32 seed;
}

-- `Math.imul`, on the unsigned reading of its operands and result.
abbrev pub imul : ℕ → ℕ → ℕ
imul a b = a * b % word

-- `value ^ (value >>> n)`, where `d` is 2 to the `n`.
abbrev pub fold_shift : ℕ → ℕ → ℕ
fold_shift d value = bit_xor (value % word) (value % word / d)

abbrev pub mix_first : ℕ → ℕ
mix_first value = imul (fold_shift 0x8000 value) (bit_or (value % word) 1)

abbrev pub mix_second : ℕ → ℕ
mix_second value = bit_xor value ((value + imul (fold_shift 0x80 value) (bit_or value 61)) % word)

abbrev pub draw_of : ℕ → ℕ
draw_of state = fold_shift 0x4000 (mix_second (mix_first state)) % word

-- `this.#state += 0x6d2b79f5`
abbrev pub stirred : SeededRandom → ℕ
stirred r = to_double (r.state + gamma)

unfoldable pub next_draw : SeededRandom → ℕ × SeededRandom
next_draw r = (draw_of (stirred r), record r { state = stirred r })

pub data PrimitiveError : Type 0 where
  invalid_range negative_delay : PrimitiveError

-- A number of JavaScript: a whole one, or a fraction, an infinity or NaN.
pub data Number : Type 0 where
  whole : ℤ → Number
  fractional : Number

-- `Number.isSafeInteger`
abbrev pub is_safe : Number → Bool
is_safe (whole a) = leb (size a) max_safe
is_safe fractional = false

abbrev pub range_valid : ℤ → ℤ → Bool
range_valid a b = is_safe (whole a) && is_safe (whole b) && ltb_ℤ a b

-- `minimum + Math.floor(this.next() * (maximumExclusive - minimum))`: the difference is rounded and
-- the product is rounded; the division by 2^32 of the fraction is exact, and so is the sum, whose
-- result is safe.
abbrev pub scaled : ℤ → ℤ → ℕ × SeededRandom → Result PrimitiveError ℤ × SeededRandom
scaled a b (draw, r) = (ok (add_ℕ a (to_double (draw * to_double (span a b)) / word)), r)

unfoldable pub integer : Number → Number → SeededRandom → Result PrimitiveError ℤ × SeededRandom
integer (whole a) (whole b) r =
    if range_valid a b then scaled a b (next_draw r) else (err invalid_range, r)
integer (whole a) fractional r = (err invalid_range, r)
integer fractional maximum r = (err invalid_range, r)

pub record Task (Callback : Type 0) : Type 0 where
  pub at : ℕ
  pub run : Callback

-- `ran` is a history variable: the tasks that were run, the last one first.
pub record VirtualClock (Callback : Type 0) : Type 0 where
  pub now : ℕ
  pub tasks : List (Task Callback)
  pub ran : List (Task Callback)

-- `sort` by time, which keeps the order of equal times.
abbrev pub insert_task : {C : Type 0} → Task C → List (Task C) → List (Task C)
insert_task x [] = x ∷ []
insert_task x (y ∷ ys) =
    let rest = insert_task x ys in if leb x.at y.at then x ∷ y ∷ ys else y ∷ rest

abbrev pub sort_tasks : {C : Type 0} → List (Task C) → List (Task C)
sort_tasks [] = []
sort_tasks (x ∷ xs) = insert_task x (sort_tasks xs)

abbrev pub push_task : {C : Type 0} → ℕ → C → VirtualClock C → VirtualClock C
push_task delay callback c = record c {
  tasks = sort_tasks (c.tasks ++ record { at = c.now + delay; run = callback } ∷ []);
}

unfoldable pub schedule :
    {C : Type 0} → ℤ → C → VirtualClock C → Result PrimitiveError Unit × VirtualClock C
schedule (negsuc n) callback c = (err negative_delay, c)
schedule (pos delay) callback c = (ok tt, push_task delay callback c)

-- What a callback does to its clock: the calls of `schedule` that it makes at the time given.
module _ {C : Type 0} (calls : C → ℕ → List (ℤ × C)) where
  abbrev pub call_schedule :
      List (ℤ × C) → VirtualClock C → Result PrimitiveError Unit × VirtualClock C
  call_schedule [] c = (ok tt, c)
  call_schedule ((delay, callback) ∷ more) c =
      proceed (schedule delay callback c).0 (λ _. call_schedule more) (schedule delay callback c).1

  -- The first task is shifted off the queue, and run.
  abbrev pub run_task :
      Task C → List (Task C) → VirtualClock C → Result PrimitiveError Unit × VirtualClock C
  run_task t ts c =
      call_schedule (calls t.run t.at) (record { now = t.at; tasks = ts; ran = t ∷ c.ran })

  abbrev pub Outcome : Type 0
  Outcome = Option (Result PrimitiveError Unit × VirtualClock C)

  abbrev pub after_task :
      (VirtualClock C → Outcome) → Result PrimitiveError Unit × VirtualClock C → Outcome
  after_task continue (ok _, c) = continue c
  after_task continue (err e, c) = some (err e, c)

  -- The body of the loop of `advance`, and what follows the loop.
  abbrev pub run_first : (VirtualClock C → Outcome) → ℕ → List (Task C) → VirtualClock C → Outcome
  run_first continue target [] c = some (ok tt, record c { now = target })
  run_first continue target (t ∷ ts) c =
      if leb t.at target
      then after_task continue (run_task t ts c)
      else some (ok tt, record c { now = target })

  -- The loop, on fuel: none where the fuel does not suffice.
  unfoldable pub run_due : ℕ → ℕ → VirtualClock C → Outcome
  run_due zero target c = none
  run_due (suc fuel) target c = run_first (λ d. run_due fuel target d) target c.tasks c

  abbrev pub advance_clock : ℕ → ℕ → VirtualClock C → Outcome
  advance_clock fuel milliseconds c = run_due fuel (c.now + milliseconds) c
