-- ===== src/Testing/Durability.antt =====
-- packages/raft-testing/src/test-cluster.ts: what the loops of `assertInvariants` over the durable
-- states find.
use node_raft_rsm.Base.{
  ℕ, suc, ◌+◌, ◌≤◌, ◌≡◌, refl, sym, ap, subst, ◌∙◌, inl, inr, Text, true, false, same, same→eq, leb,
  ◌==◌, All, All-In, All-mono, In, Option, none, some, List, [], ◌∷◌, Result, ok, err, arith,
  Bool-cases, Result-cases,
}
use node_raft_rsm.Types.{LogEntry, PersistedRaftState}
use node_raft_rsm.Core.State.{boundary}
use node_raft_rsm.Core.Log.{Contiguous}
use node_raft_rsm.Testing.{
  Violation, get_at, put_at, known_differs, check_committed, check_entries, check_durable,
}
use node_raft_rsm.Testing.Fits.{get_at-put_at}

abbrev Checked : Type 0
Checked = Result Violation (List (ℕ × Text))

abbrev okay : List (ℕ × Text) → Checked
okay known = ok known

ok_injective : {a b : List (ℕ × Text)} → okay a ≡ okay b → a ≡ b
ok_injective e = cc e

module _ (fingerprint : LogEntry → Text) where
  abbrev Known : Type 0
  Known = List (ℕ × Text)

  -- The later map still holds what the earlier one holds.
  abbrev Holds : Known → Known → Type 0
  Holds known later = (i : ℕ) (f : Text) → get_at known i ≡ some f → get_at later i ≡ some f

  abbrev Entered : ℕ → Known → LogEntry → Type 0
  Entered commit known e = e.index ≤ commit → get_at known e.index ≡ some (fingerprint e)

  known_same :
      (o : Option Text) (f g : Text) → known_differs fingerprint o g ≡ false → o ≡ some f → f ≡ g
  known_same none f g d e = cc
  known_same (some h) f g d e = elim (Bool-cases (same h g)) [
    | inl s ↦ cc (same→eq h g s, e)
    | inr s ↦ cc (rw s at d)
  ]

  put-Holds :
      (e : LogEntry) (known : Known)
      → known_differs fingerprint (get_at known e.index) (fingerprint e) ≡ false
      → Holds known (put_at known e.index (fingerprint e))
  put-Holds e known d i f h = elim (Bool-cases (e.index == i)) [
    | inl s ↦
        let at : e.index ≡ i = ground arith in
        let own : f ≡ fingerprint e =
          known_same (get_at known e.index) f (fingerprint e) d (ap (get_at known) at ∙ h) in
        get_at-put_at known e.index i (fingerprint e) ∙ rw s (ap some (sym own))
    | inr s ↦ get_at-put_at known e.index i (fingerprint e) ∙ rw s h
  ]

  put-Entered :
      (e : LogEntry) (known : Known)
      → get_at (put_at known e.index (fingerprint e)) e.index ≡ some (fingerprint e)
  put-Entered e known =
      let own : (e.index == e.index) ≡ true = ground arith in
      get_at-put_at known e.index e.index (fingerprint e) ∙ rw own refl

  committed-found :
      (e : LogEntry) (commit : ℕ) (known later : Known)
      → check_committed fingerprint e commit known ≡ ok later
      → Holds known later × Entered commit later e
  committed-found e commit known later h = elim (Bool-cases (leb e.index commit)) [
    | inr g ↦
        let same_map : known ≡ later = ok_injective (rw g at h) in
        (λ i f k. ap (λ m. get_at m i) (sym same_map) ∙ k, λ le. absurd (ground arith))
    | inl g ↦ elim (Bool-cases (known_differs fingerprint (get_at known e.index) (fingerprint e))) [
      | inl d ↦ cc (rw (g, d) at h)
      | inr d ↦
          let put_in : put_at known e.index (fingerprint e) ≡ later =
            ok_injective (rw (g, d) at h) in
          subst (λ m. Holds known m × Entered commit m e) put_in
            (put-Holds e known d, λ le. put-Entered e known)
    ]
  ]

  record Read (expected commit : ℕ) (es : List LogEntry) (known later : Known) : Type 0 where
    holds : Holds known later
    contiguous : Contiguous expected es
    entered : All (Entered commit later) es

  entries-Read :
      (expected commit : ℕ) (es : List LogEntry) (known later : Known)
      → check_entries fingerprint expected commit es (ok known) ≡ ok later
      → Read expected commit es known later
  entries-Read expected commit [] known later h = record {
    holds = λ i f k. ap (λ m. get_at m i) (sym (ok_injective h)) ∙ k;
    contiguous = tt;
    entered = tt;
  }
  entries-Read expected commit (e ∷ es) known later h = elim (Bool-cases (e.index == expected)) [
    | inr g ↦ cc (rw g at h)
    | inl g ↦ elim (Result-cases (check_committed fingerprint e commit known)) [
      | inr (v, r) ↦ cc (rw (g, r) at h)
      | inl (between, r) ↦
          let (held, entered) = committed-found e commit known between r in
          let next : expected + 1 ≡ suc expected = omega arith in
          let rest = entries-Read (expected + 1) commit es between later (rw (g, r) at h) in
          record {
            holds = λ i f k. rest.holds i f (held i f k);
            contiguous = (ground arith, subst (λ n. Contiguous n es) next rest.contiguous);
            entered = (λ le. rest.holds e.index (fingerprint e) (entered le), rest.entered);
          }
    ]
  ]

  failed_states :
      (ps : List PersistedRaftState) (v : Violation) → check_durable fingerprint ps (err v) ≡ err v
  failed_states [] v = refl
  failed_states (p ∷ []) v = refl
  failed_states (p ∷ q ∷ ps) v = failed_states (q ∷ ps) v

  states-Read :
      (ps : List PersistedRaftState) (known later : Known)
      → check_durable fingerprint ps (ok known) ≡ ok later
      → Holds known later
        × All (λ p. Contiguous (suc (boundary p.snapshot)) p.entries) ps
        × All (λ p. All (Entered p.hard_state.commit_index later) p.entries) ps
  states-Read [] known later h = (λ i f k. ap (λ m. get_at m i) (sym (ok_injective h)) ∙ k, tt, tt)
  states-Read (p ∷ ps) known later h =
      elim (Result-cases (
        check_entries fingerprint (boundary p.snapshot + 1) p.hard_state.commit_index p.entries
          (ok known))) [
            | inr (v, r) ↦ cc (failed_states ps v, rw r at h)
            | inl (between, r) ↦
                let first =
                  entries-Read (boundary p.snapshot + 1) p.hard_state.commit_index p.entries known
                    between r in
                let (holds, logs, entered) = states-Read ps between later (rw r at h) in
                let next : boundary p.snapshot + 1 ≡ suc (boundary p.snapshot) = omega arith in
                (
                  λ i f k. holds i f (first.holds i f k),
                  (subst (λ n. Contiguous n p.entries) next first.contiguous, logs),
                  (
                    All-mono _ _ p.entries (λ e k le. holds e.index (fingerprint e) (k le))
                        first.entered,
                    entered,
                  ),
                )
          ]

  -- The durable logs have no gaps, and agree on what is committed.
  pub record Consistent (ps : List PersistedRaftState) : Type 0 where
    pub logs : All (λ p. Contiguous (suc (boundary p.snapshot)) p.entries) ps
    pub agree :
        (p q : PersistedRaftState) (e f : LogEntry)
        → In p ps
        → In q ps
        → In e p.entries
        → In f q.entries
        → e.index ≤ p.hard_state.commit_index
        → f.index ≤ q.hard_state.commit_index
        → e.index ≡ f.index
        → fingerprint e ≡ fingerprint f

  -- If the loops over the durable states pass, begun with no fingerprint noted, then each log goes on
  -- from its snapshot without a gap, and entries at one index, each committed in its own state, have
  -- the same fingerprint.
  pub check_durable-Consistent :
      (ps : List PersistedRaftState) (later : List (ℕ × Text))
      → check_durable fingerprint ps (ok []) ≡ ok later
      → Consistent ps
  check_durable-Consistent ps later h =
      let (holds, logs, entered) = states-Read ps [] later h in
      record {
        logs = logs;
        agree = λ p q e f in_p in_q in_e in_f le lf same_index.
            let found =
              λ (x : PersistedRaftState) (y : LogEntry) (in_x : In x ps) (in_y : In y x.entries).
                All-In (Entered x.hard_state.commit_index later) x.entries y
                  (All-In (λ z. All (Entered z.hard_state.commit_index later) z.entries) ps x
                    entered in_x)
                  in_y in
            cc (found p e in_p in_e le, found q f in_q in_f lf, ap (get_at later) same_index);
      }
