-- ===== src/Testing/Verdicts.antt =====
-- packages/raft-testing/src/test-cluster.ts: what the loop of `assertInvariants` over the members that
-- run decides.
use node_raft_rsm.Base.{
  ℕ, ◌≡◌, refl, sym, ap, subst, ◌∙◌, ◌↔◌, ◌⊎◌, inl, inr, true, false, ◌==◌, same, same→eq,
  same_refl, distinct, All, In, if◌then◌else◌, none, some, List, [], ◌∷◌, Result, ok, arith,
  Bool-cases, Option-cases,
}
use node_raft_rsm.Types.{NodeId}
use node_raft_rsm.Core.Leader.{is_leader}
use node_raft_rsm.Testing.{
  RaftStatus, Violation, get_at, put_at, Round, measure, noted, rivals, check_live,
}
use node_raft_rsm.Testing.Fits.{
  get_at-put_at, Fits, Leads, measure-none, none-measure, Fits-noted, noted-Fits, names, All-others,
  Unrivalled,
}

module _ (r : Round) (m : NodeId) (s : RaftStatus) (more : List (NodeId × RaftStatus)) where
  abbrev next_round : Round
  next_round = record {
    watch = noted m s r.watch;
    leaders = if is_leader s.role then put_at r.leaders s.current_term m else r.leaders;
  }

  abbrev Admitted : Type 0
  Admitted = (is_leader s.role ≡ false) ⊎ (rivals (get_at r.leaders s.current_term) m ≡ false)

  -- One turn of the loop, where the member is found in order.
  turn-next :
      measure m s r.watch ≡ none
      → Admitted
      → check_live ((m, s) ∷ more) r ≡ check_live more next_round
  turn-next h (inl l) = rw (h, l) refl
  turn-next h (inr l) = elim (Bool-cases (is_leader s.role)) [
    | inl g ↦ rw (h, g, l) refl
    | inr g ↦ rw (h, g) refl
  ]

  next-turn : (check_live ((m, s) ∷ more) r).0 ≡ ok tt → (measure m s r.watch ≡ none) × Admitted
  next-turn h = elim (Option-cases (measure m s r.watch)) [
    | inr (v, e) ↦ cc (rw e at h)
    | inl e ↦ elim (Bool-cases (is_leader s.role)) [
      | inr g ↦ (e, inl g)
      | inl g ↦ elim (Bool-cases (rivals (get_at r.leaders s.current_term) m)) [
        | inl l ↦ cc (rw (e, g, l) at h)
        | inr l ↦ (e, inr l)
      ]
    ]
  ]

  leader_test : Leads (m, s) → is_leader s.role ≡ true
  leader_test l = rw l refl

  no_rival :
      (n : NodeId) → Admitted → Leads (m, s) → get_at r.leaders s.current_term ≡ some n → n ≡ m
  no_rival n (inl g) l e = cc (leader_test l, g)
  no_rival n (inr g) l e = elim (Bool-cases (same n m)) [
    | inl h ↦ same→eq n m h
    | inr h ↦ absurd (ground (arith, rw e at g))
  ]

  Unrivalled-Admitted : Unrivalled r.leaders ((m, s) ∷ more) → Admitted
  Unrivalled-Admitted u = elim (Bool-cases (is_leader s.role)) [
    | inr g ↦ inl g
    | inl g ↦ inr (elim (Option-cases (get_at r.leaders s.current_term)) [
      | inl e ↦ rw e refl
      | inr (n, e) ↦ rw (e, u.known (m, s) n (inl refl) (ground arith) e, same_refl m) refl
    ])
  ]

  -- The leader of a term after the turn.
  seen_next :
      (k : ℕ) (n : NodeId)
      → get_at next_round.leaders k ≡ some n
      → (get_at r.leaders k ≡ some n) ⊎ (Leads (m, s) × (s.current_term ≡ k) × (n ≡ m))
  seen_next k n h = elim (Bool-cases (is_leader s.role)) [
    | inr g ↦ inl (rw g at h)
    | inl g ↦ elim (Bool-cases (s.current_term == k)) [
      | inl e ↦ inr (
        ground arith,
        ground arith,
        cc (rw e at (get_at-put_at r.leaders s.current_term k m), rw g at h),
      )
      | inr e ↦ inl (sym (get_at-put_at r.leaders s.current_term k m ∙ rw e refl) ∙ (rw g at h))
    ]
  ]

  Unrivalled-next : Unrivalled r.leaders ((m, s) ∷ more) → Unrivalled next_round.leaders more
  Unrivalled-next u = record {
    known = λ x n h l e. elim (seen_next x.1.current_term n e) [
      | inl old ↦ u.known x n (inr h) l old
      | inr (lead, at, own) ↦ own ∙ u.pairs (m, s) x (inl refl) (inr h) lead l at
    ];
    pairs = λ x y h k. u.pairs x y (inr h) (inr k);
  }

  seen_still :
      (k : ℕ) (n : NodeId)
      → Admitted
      → get_at r.leaders k ≡ some n
      → get_at next_round.leaders k ≡ some n
  seen_still k n a h = elim (Bool-cases (is_leader s.role)) [
    | inr g ↦ rw g h
    | inl g ↦ elim (Bool-cases (s.current_term == k)) [
      | inl e ↦
          let at : s.current_term ≡ k = ground arith in
          let own : n ≡ m = no_rival n a (ground arith) (ap (get_at r.leaders) at ∙ h) in
          rw g (get_at-put_at r.leaders s.current_term k m ∙ rw e (ap some (sym own)))
      | inr e ↦ rw g (get_at-put_at r.leaders s.current_term k m ∙ rw e h)
    ]
  ]

  seen_own : Leads (m, s) → get_at next_round.leaders s.current_term ≡ some m
  seen_own l =
      let same_term : (s.current_term == s.current_term) ≡ true = ground arith in
      rw (leader_test l)
        (get_at-put_at r.leaders s.current_term s.current_term m ∙ rw same_term refl)

  own-pair :
      (x y : NodeId × RaftStatus)
      → Unrivalled next_round.leaders more
      → x ≡ (m, s)
      → In y more
      → Leads x
      → Leads y
      → x.1.current_term ≡ y.1.current_term
      → x.0 ≡ y.0
  own-pair x y u e h l k t =
      let lead : Leads (m, s) = subst Leads e l in
      let at : s.current_term ≡ y.1.current_term =
        sym (ap (λ (z : NodeId × RaftStatus). z.1.current_term) e) ∙ t in
      ap (λ (z : NodeId × RaftStatus). z.0) e
      ∙ u.known y m h k (ap (get_at next_round.leaders) (sym at) ∙ seen_own lead)

  next-Unrivalled :
      Admitted → Unrivalled next_round.leaders more → Unrivalled r.leaders ((m, s) ∷ more)
  next-Unrivalled a u = record {
    known = λ x n h l g. elim h [
      | inl e ↦
          subst
            (λ (z : NodeId × RaftStatus).
              Leads z → get_at r.leaders z.1.current_term ≡ some n → n ≡ z.0)
            (sym e) (no_rival n a) l g
      | inr k ↦ u.known x n k l (seen_still x.1.current_term n a g)
    ];
    pairs = λ x y h k l q t. elim h [
      | inl e ↦ elim k [
        | inl f ↦ ap (λ (z : NodeId × RaftStatus). z.0) (e ∙ sym f)
        | inr there ↦ own-pair x y u e there l q t
      ]
      | inr there ↦ elim k [
        | inl f ↦ sym (own-pair y x u f there q l (sym t))
        | inr too ↦ u.pairs x y there too l q t
      ]
    ];
  }

-- What the loop asks of the members that run.
pub record InOrder (r : Round) (live : List (NodeId × RaftStatus)) : Type 0 where
  pub fits : All (Fits r.watch) live
  pub unrivalled : Unrivalled r.leaders live

none-Unrivalled : (leaders : List (ℕ × NodeId)) → Unrivalled leaders []
none-Unrivalled leaders = record { known = λ x n h. elim h [ ]; pairs = λ x y h. elim h [ ] }

InOrder-passes :
    (live : List (NodeId × RaftStatus)) (r : Round)
    → distinct (names live) ≡ true
    → InOrder r live
    → (check_live live r).0 ≡ ok tt
InOrder-passes [] r d h = refl
InOrder-passes ((m, s) ∷ more) r d h =
    ap (λ (x : Result Violation Unit × Round). x.0)
      (turn-next r m s more (measure-none m s r.watch h.fits.0)
        (Unrivalled-Admitted r m s more h.unrivalled))
    ∙ InOrder-passes more (next_round r m s more) (ground arith) (record {
      fits =
          All-others (Fits r.watch) (Fits (noted m s r.watch)) m more (ground arith)
            (Fits-noted m s r.watch) h.fits.1;
      unrivalled = Unrivalled-next r m s more h.unrivalled;
    })

passes-InOrder :
    (live : List (NodeId × RaftStatus)) (r : Round)
    → distinct (names live) ≡ true
    → (check_live live r).0 ≡ ok tt
    → InOrder r live
passes-InOrder [] r d h = record { fits = tt; unrivalled = none-Unrivalled r.leaders }
passes-InOrder ((m, s) ∷ more) r d h =
    let (found, admitted) = next-turn r m s more h in
    let rest = passes-InOrder more (next_round r m s more) (ground arith) (
      sym (ap (λ (x : Result Violation Unit × Round). x.0) (turn-next r m s more found admitted))
      ∙ h) in
    record {
      fits = (
        none-measure m s r.watch found,
        All-others (Fits (noted m s r.watch)) (Fits r.watch) m more (ground arith)
            (noted-Fits m s r.watch) rest.fits,
      );
      unrivalled = next-Unrivalled r m s more admitted rest.unrivalled;
    }

-- The loop of `assertInvariants` over the members that run, each of which the Map holds once, passes
-- without a violation if and only if each status goes on from what was last seen of the member, is in
-- order (applied index, commit index, last log index), no member leads in a term for which the round
-- has noted another leader, and no two members lead in one term.
pub check_live-InOrder :
    (live : List (NodeId × RaftStatus)) (r : Round)
    → distinct (names live) ≡ true
    → ((check_live live r).0 ≡ ok tt) ↔ InOrder r live
check_live-InOrder live r d = (passes-InOrder live r d, InOrder-passes live r d)
