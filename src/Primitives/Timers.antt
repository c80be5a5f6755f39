-- ===== src/Primitives/Timers.antt =====
-- packages/raft-testing/src/primitives.ts: the virtual clock. That `advance` returns, in what order
-- it runs its tasks, and that it runs all that are due.
use node_raft_rsm.Base.{
  All-snoc, ℕ, zero, suc, ◌+◌, ◌-◌, ◌≤◌, ◌<◌, ◌≡◌, refl, sym, subst, ◌∙◌, ◌⊎◌, inl, inr, leb, arith,
  Option, some, List, [], ◌∷◌, ◌++◌, Result, ok, err, All, All-mono, In, In-append_left,
  In-append_right, Bool-cases,
}
use node_raft_rsm.Primitives.{
  PrimitiveError, negative_delay, Task, VirtualClock, push_task, schedule, run_task, run_first,
  run_due, advance_clock,
}
use node_raft_rsm.Primitives.Doubles.{ℤ, pos, negsuc}
use node_raft_rsm.Primitives.Tasks.{
  Sorted, Falling, sort-All, sort-Sorted, In-sort, room, room-sort, room-end,
}

module _ {C : Type 0} where
  pub record Timed (c : VirtualClock C) : Type 0 where
    pub sorted : Sorted c.tasks
    pub ahead : All (λ t. c.now ≤ t.at) c.tasks
    pub past : All (λ t. t.at ≤ c.now) c.ran
    pub order : Falling c.ran

  push-Timed :
      (delay : ℕ) (callback : C) (c : VirtualClock C) → Timed c → Timed (push_task delay callback c)
  push-Timed delay callback c h =
      let t : Task C = record { at = c.now + delay; run = callback } in
      record {
        sorted = sort-Sorted (c.tasks ++ t ∷ []);
        ahead =
            sort-All (λ u. c.now ≤ u.at) (c.tasks ++ t ∷ [])
              (All-snoc (λ u. c.now ≤ u.at) c.tasks t h.ahead (omega arith));
        past = h.past;
        order = h.order;
      }

  -- The first task is due, and the clock stands at its time.
  shifted : Task C → List (Task C) → VirtualClock C → VirtualClock C
  shifted t ts c = record { now = t.at; tasks = ts; ran = t ∷ c.ran }

  shifted-Timed :
      (t : Task C) (ts : List (Task C)) (c : VirtualClock C)
      → c.tasks ≡ t ∷ ts
      → Timed c
      → Timed (shifted t ts c)
  unfolding shifted
  shifted-Timed t ts c e h =
      let sorted = subst Sorted e h.sorted in
      let ahead = subst (All (λ u. c.now ≤ u.at)) e h.ahead in
      record {
        sorted = sorted.1;
        ahead = sorted.0;
        past = (omega arith, All-mono _ _ c.ran (λ u k. omega (arith, k, ahead.0)) h.past);
        order = (All-mono _ _ c.ran (λ u k. omega (arith, k, ahead.0)) h.past, h.order);
      }

  -- The clock stands at the target with no task due, and what it had has been run or is kept.
  pub record Advanced (target : ℕ) (c d : VirtualClock C) : Type 0 where
    pub now : d.now ≡ target
    pub timed : Timed d
    pub none_due : All (λ t. target < t.at) d.tasks
    pub kept : (t : Task C) → In t c.tasks → In t d.ran ⊎ In t d.tasks
    pub history : (t : Task C) → In t c.ran → In t d.ran

  push-kept :
      (delay : ℕ) (callback : C) (c : VirtualClock C) (t : Task C)
      → In t c.tasks
      → In t (push_task delay callback c).tasks
  push-kept delay callback c t h = In-sort t _ (In-append_left c.tasks _ t h)

  push-room :
      (target delay : ℕ) (callback : C) (c : VirtualClock C)
      → room target (push_task delay callback c).tasks
        ≡ room target c.tasks + (suc target - (c.now + delay))
  push-room target delay callback c =
      let t : Task C = record { at = c.now + delay; run = callback } in
      room-sort target (c.tasks ++ t ∷ []) ∙ room-end target c.tasks t

  stop-Advanced :
      (target : ℕ) (c : VirtualClock C)
      → Timed c
      → c.now ≤ target
      → All (λ t. target < t.at) c.tasks
      → Advanced target c (record c { now = target })
  stop-Advanced target c h le later = record {
    now = refl;
    timed = record {
      sorted = h.sorted;
      ahead = All-mono _ _ c.tasks (λ t k. omega (arith, k)) later;
      past = All-mono _ _ c.ran (λ t k. omega (arith, k, le)) h.past;
      order = h.order;
    };
    none_due = later;
    kept = λ t k. inr k;
    history = λ t k. k;
  }

  -- What holds from the clock after a task holds from the clock before it.
  from-shifted :
      (target : ℕ) (t : Task C) (ts : List (Task C)) (c s d : VirtualClock C)
      → c.tasks ≡ t ∷ ts
      → s.ran ≡ t ∷ c.ran
      → ((u : Task C) → In u ts → In u s.tasks)
      → Advanced target s d
      → Advanced target c d
  from-shifted target t ts c s d e ran more a = record {
    now = a.now;
    timed = a.timed;
    none_due = a.none_due;
    kept = λ u k. elim (subst (In u) e k) [
      | inl first ↦ inl (a.history u (subst (In u) (sym ran) (inl first)))
      | inr rest ↦ a.kept u (more u rest)
    ];
    history = λ u k. a.history u (subst (In u) (sym ran) (inr k));
  }

  -- Each callback schedules nothing, or one task, and that later than now.
  abbrev pub Rearming : (C → ℕ → List (ℤ × C)) → Type 0
  Rearming calls =
      (a : C) (now : ℕ)
      → (calls a now ≡ []) ⊎ ((delay : ℕ) × (b : C) × (calls a now ≡ (pos (suc delay), b) ∷ []))

  pub record Completes (target : ℕ) (c : VirtualClock C)
      (o : Option (Result PrimitiveError Unit × VirtualClock C)) : Type 0 where
    pub clock : VirtualClock C
    pub returned : o ≡ some (ok tt, clock)
    pub advanced : Advanced target c clock

  module _ (calls : C → ℕ → List (ℤ × C)) (rearming : Rearming calls) where
    -- A run of the first task leaves a clock on which less room is left.
    record Ran (target : ℕ) (t : Task C) (ts : List (Task C)) (c s : VirtualClock C) : Type 0 where
      result : run_task calls t ts c ≡ (ok tt, s)
      timed : Timed s
      now : s.now ≡ t.at
      ran : s.ran ≡ t ∷ c.ran
      kept : (u : Task C) → In u ts → In u s.tasks
      less : room target s.tasks < room target (t ∷ ts)

    run_task-Ran :
        (target : ℕ) (t : Task C) (ts : List (Task C)) (c : VirtualClock C)
        → c.tasks ≡ t ∷ ts
        → t.at ≤ target
        → Timed c
        → (s : VirtualClock C) × Ran target t ts c s
    unfolding shifted schedule
    run_task-Ran target t ts c e due h = elim (rearming t.run t.at) [
      | inl none_made ↦ (
        shifted t ts c,
        record {
          result = rw none_made refl;
          timed = shifted-Timed t ts c e h;
          now = refl;
          ran = refl;
          kept = λ u k. k;
          less = omega (arith, due);
        },
      )
      | inr (delay, b, one) ↦ (
        push_task (suc delay) b (shifted t ts c),
        record {
          result = rw one refl;
          timed = push-Timed (suc delay) b (shifted t ts c) (shifted-Timed t ts c e h);
          now = refl;
          ran = refl;
          kept = push-kept (suc delay) b (shifted t ts c);
          less = omega (arith, push-room target (suc delay) b (shifted t ts c), due);
        },
      )
    ]

    abbrev Returns :
        ℕ → VirtualClock C → Option (Result PrimitiveError Unit × VirtualClock C) → Type 0
    Returns target c o = (d : VirtualClock C) × (o ≡ some (ok tt, d)) × Advanced target c d

    -- One round of the loop, where the rest of the loop returns.
    run_first-Returns :
        (continue : VirtualClock C → Option (Result PrimitiveError Unit × VirtualClock C))
        (target : ℕ) (ts : List (Task C)) (c : VirtualClock C)
        → c.tasks ≡ ts
        → Timed c
        → c.now ≤ target
        → ((s : VirtualClock C)
            → Timed s
            → s.now ≤ target
            → room target s.tasks < room target ts
            → Returns target s (continue s))
        → Returns target c (run_first calls continue target ts c)
    run_first-Returns continue target [] c e h le rest =
        (record c { now = target }, refl, stop-Advanced target c h le (rw e tt))
    run_first-Returns continue target (t ∷ ts) c e h le rest = elim (Bool-cases (leb t.at target)) [
      | inl g ↦
          let (s, r) = run_task-Ran target t ts c e (ground arith) h in
          let (d, returned, a) = rest s r.timed (ground (arith, r.now)) r.less in
          (d, rw (g, r.result) returned, from-shifted target t ts c s d e r.ran r.kept a)
      | inr g ↦
          let later : target < t.at = ground arith in
          (
            record c { now = target },
            rw g refl,
            stop-Advanced target c h le (
                subst (All (λ u. target < u.at)) (sym e) (
                  later,
                  All-mono _ _ ts (λ u k. omega (arith, k, later)) (subst Sorted e h.sorted).0,
                )),
          )
    ]

    run_due-Returns :
        (fuel target : ℕ) (c : VirtualClock C)
        → Timed c
        → c.now ≤ target
        → room target c.tasks < fuel
        → Returns target c (run_due calls fuel target c)
    unfolding run_due
    run_due-Returns zero target c h le enough = absurd (omega (arith, enough))
    run_due-Returns (suc fuel) target c h le enough =
        run_first-Returns (λ d. run_due calls fuel target d) target c.tasks c refl h le
          (λ s timed now less.
            run_due-Returns fuel target s timed now (omega (arith, less, enough)))

    -- `advance` terminates, on a clock whose tasks are sorted and not in the past, whose history is in
    -- the past and in order, and whose callbacks each schedule nothing or one task later than now: on
    -- fuel above the time that the tasks have left to the target, it returns without a throw. The
    -- clock then stands at the target, no task that is left is due, each task of the queue was run
    -- or is left, the history keeps what it had, and it is in the order of the tasks' times.
    pub advance_clock-Returns :
        (fuel milliseconds : ℕ) (c : VirtualClock C)
        → Timed c
        → room (c.now + milliseconds) c.tasks < fuel
        → Completes (c.now + milliseconds) c (advance_clock calls fuel milliseconds c)
    advance_clock-Returns fuel milliseconds c h enough =
        let (d, e, a) = run_due-Returns fuel (c.now + milliseconds) c h (omega arith) enough in
        record { clock = d; returned = e; advanced = a }

  pub record Scheduled (delay : ℕ) (callback : C) (c d : VirtualClock C) : Type 0 where
    pub timed : Timed d
    pub added : In (record { at = c.now + delay; run = callback }) d.tasks
    pub kept : (t : Task C) → In t c.tasks → In t d.tasks

  abbrev pub Schedules :
      ℤ → C → VirtualClock C → Result PrimitiveError Unit × VirtualClock C → Type 0
  Schedules (negsuc n) callback c r = r ≡ (err negative_delay, c)
  Schedules (pos delay) callback c r = (r.0 ≡ ok tt) × Scheduled delay callback c r.1

  -- `schedule`, on a clock whose tasks are sorted and not in the past, and whose history is in the past
  -- and in order: a delay below zero throws and leaves the clock; with any other the queue holds the
  -- new task, at the delay from now, and all that it held, and the clock is as it was required to be.
  pub schedule-Scheduled :
      (delay : ℤ) (callback : C) (c : VirtualClock C)
      → Timed c
      → Schedules delay callback c (schedule delay callback c)
  unfolding schedule
  schedule-Scheduled (negsuc n) callback c h = refl
  schedule-Scheduled (pos delay) callback c h = (
    refl,
    record {
      timed = push-Timed delay callback c h;
      added = In-sort _ _ (
          In-append_right c.tasks (record { at = c.now + delay; run = callback } ∷ []) _
            (inl refl));
      kept = push-kept delay callback c;
    },
  )
