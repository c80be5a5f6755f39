-- ===== src/Core/Reading.antt =====
-- The loop of `#handleAppendRequest` on chains: a follower that takes over what a leader sent.
use node_raft_rsm.Base.{
  ℕ, suc, ◌+◌, ◌≤◌, ◌<◌, ◌≡◌, ◌≢◌, refl, sym, ap, subst, ◌∙◌, ◌⊎◌, inl, inr, last?, length, ltb,
  leb, ◌==◌, if◌then◌else◌, none, some, List, [], ◌∷◌, ◌++◌, Result, Exec, ok, err, proceed, ◌>>◌,
  arith, Bool-cases, Option-cases,
}
use node_raft_rsm.Types.{LogEntry}
use node_raft_rsm.Core.State.{
  RaftCore, Error, find_entry, entry_term, last_log_index, last_index, boundary,
}
use node_raft_rsm.Core.Handlers.{
  Appending, drop_from, push_entry, resolve_conflict, extend_log, append_entries,
}
use node_raft_rsm.Core.Log.{
  Contiguous, Contiguous-snoc, Contiguous-below, below, find_entry-below, find_entry-append,
  last_index-Contiguous,
}
use node_raft_rsm.Core.Chains.{
  Link, Chain, Chain-snoc, Chain-below, term_before, term_before-length,
}

module _ (Known : Link → Type 0) (b : RaftCore) where
  -- The object differs from `b` by its log, which is a chain of known links.
  pub record Read (a : Appending) : Type 0 where
    pub frame : a.core ≡ record b { entries = a.core.entries }
    pub contiguous : Contiguous 1 a.core.entries
    pub chain : Chain Known 0 a.core.entries
    pub untouched : a.truncate_from ≡ none → a.appended ≡ [] → a.core.entries ≡ b.entries

  -- The next entry comes after an entry of the term p at the index k.
  pub record Reading (a : Appending) (k p : ℕ) : Type 0 where
    pub read : Read a
    pub at : term_before a.core.entries k ≡ some p

  -- The entry at the incoming entry's index, if there is one, has its term.
  abbrev Agrees : LogEntry → List LogEntry → Type 0
  Agrees e es =
      (find_entry es e.index ≡ none)
      ⊎ ((f : LogEntry) × (find_entry es e.index ≡ some f) × (f.term ≡ e.term))

  abbrev Resolved : LogEntry → ℕ → ℕ → Result Error Unit × Appending → Type 0
  Resolved e k p (ok _, a) = Reading a k p × Agrees e a.core.entries
  Resolved e k p (err x, a) = Read a

  term_before-below :
      (es : List LogEntry) (k i : ℕ) → i < k → term_before (below k es) i ≡ term_before es i
  term_before-below es k i l =
      ap (λ o. if i == 0 then some 0 else entry_term o) (find_entry-below k i es l)

  find_none-below :
      (n k : ℕ) (es : List LogEntry) → Contiguous n es → find_entry (below k es) k ≡ none
  unfolding find_entry
  find_none-below n k [] c = refl
  find_none-below n k (e ∷ es) c = elim (Bool-cases (ltb e.index k)) [
    | inl g ↦ ground (arith, find_none-below (suc n) k es c.1)
    | inr g ↦ ground (arith, find_none-below (suc n) k es c.1)
  ]

  resolve_conflict-Resolved :
      (e : LogEntry) (a : Appending) (k p : ℕ)
      → e.index ≡ suc k
      → Reading a k p
      → Resolved e k p (resolve_conflict e a)
  unfolding resolve_conflict
  resolve_conflict-Resolved e a k p i r = elim (Option-cases (find_entry a.core.entries e.index)) [
    | inl n ↦ rw (n, resolve_conflict) (r, inl n)
    | inr (f, n) ↦ elim (Bool-cases (f.term == e.term)) [
      | inl s ↦ rw (n, resolve_conflict, s) (r, inr (f, n, ground arith))
      | inr s ↦ elim (Bool-cases (leb e.index a.core.commit_index)) [
        | inl l ↦ rw (n, resolve_conflict, s, l) r.read
        | inr l ↦
            rw (n, resolve_conflict, s, l)
              (
                record {
                  read = record {
                    frame = ap (drop_from e.index) r.read.frame;
                    contiguous = Contiguous-below 1 e.index a.core.entries r.read.contiguous;
                    chain =
                        Chain-below Known 0 1 e.index a.core.entries r.read.contiguous r.read.chain;
                    untouched = λ h. cc;
                  };
                  at = term_before-below a.core.entries e.index k (omega (arith, i)) ∙ r.at;
                },
                inl (find_none-below 1 e.index a.core.entries r.read.contiguous),
              )
      ]
    ]
  ]

  abbrev Extended : LogEntry → Result Error Unit × Appending → Type 0
  Extended e (ok _, a) = Reading a e.index e.term
  Extended e (err x, a) = Read a

  positive_term :
      (es : List LogEntry) (i : ℕ) → 1 ≤ i → term_before es i ≡ entry_term (find_entry es i)
  positive_term es i l = ground arith

  found_pushed :
      (es : List LogEntry) (e : LogEntry)
      → find_entry es e.index ≡ none
      → find_entry (es ++ e ∷ []) e.index ≡ some e
  unfolding find_entry
  found_pushed es e n = ground (arith, find_entry-append es (e ∷ []) e.index)

  not_empty : (es : List LogEntry) (e : LogEntry) → es ++ e ∷ [] ≢ []
  not_empty [] e h = cc
  not_empty (x ∷ es) e h = cc

  last-length :
      (a : Appending) → b.snapshot ≡ none → Read a → last_log_index a.core ≡ length a.core.entries
  unfolding boundary
  last-length a n r =
      ap (λ s. last_index (last? a.core.entries) s) (ap (λ c. c.snapshot) r.frame ∙ n)
      ∙ last_index-Contiguous none a.core.entries r.contiguous
      ∙ (omega arith)

  same_some : (p q : ℕ) → some p ≡ some q → p ≡ q
  same_some p q h = cc

  push_entry-Reading :
      (e : LogEntry) (a : Appending) (k p : ℕ)
      → e.index ≡ suc k
      → b.snapshot ≡ none
      → find_entry a.core.entries e.index ≡ none
      → e.index ≡ last_log_index a.core + 1
      → Known (record { before = p; entry = e })
      → Reading a k p
      → Reading (push_entry e a) e.index e.term
  push_entry-Reading e a k p i n absent next known r =
      let size : k ≡ length a.core.entries = omega (arith, i, next, last-length a n r.read) in
      record {
        read = record {
          frame =
              ap (λ (c : RaftCore). record c { entries = a.core.entries ++ e ∷ [] }) r.read.frame;
          contiguous =
              Contiguous-snoc 1 a.core.entries e r.read.contiguous (omega (arith, i, size));
          chain = Chain-snoc Known 0 a.core.entries e r.read.chain (
              subst (λ q. Known (record { before = q; entry = e }))
                (same_some p _ (
                  sym r.at
                  ∙ ap (term_before a.core.entries) size
                  ∙ term_before-length a.core.entries r.read.contiguous))
                known);
          untouched = λ h q. absurd (not_empty a.appended e q);
        };
        at =
            positive_term _ e.index (omega (arith, i))
            ∙ ap entry_term (found_pushed a.core.entries e absent);
      }

  extend_log-Extended :
      (e : LogEntry) (a : Appending) (k p : ℕ)
      → e.index ≡ suc k
      → b.snapshot ≡ none
      → Known (record { before = p; entry = e })
      → Reading a k p
      → Agrees e a.core.entries
      → Extended e (extend_log e a)
  unfolding extend_log
  extend_log-Extended e a k p i n known r (inr (f, found, same_term)) =
      rw (found, extend_log)
        (record {
          read = r.read;
          at = positive_term _ e.index (omega (arith, i)) ∙ ap entry_term found ∙ ap some same_term;
        })
  extend_log-Extended e a k p i n known r (inl absent) =
      elim (Bool-cases (e.index == last_log_index a.core + 1)) [
        | inl s ↦
            rw (absent, extend_log, s)
              (push_entry-Reading e a k p i n absent (ground arith) known r)
        | inr s ↦ rw (absent, extend_log, s) r.read
      ]

  Extended-then :
      (e : LogEntry) (out : Result Error Unit × Appending) (k : Exec Error Appending Unit)
      → Extended e out
      → ((a : Appending) → Reading a e.index e.term → Read (k a).1)
      → Read (proceed out.0 (λ _. k) out.1).1
  Extended-then e (ok _, a) k x h = h a x
  Extended-then e (err y, a) k x h = x

  Resolved-then :
      (e : LogEntry) (i p : ℕ) (out : Result Error Unit × Appending) (k : Exec Error Appending Unit)
      → Resolved e i p out
      → ((a : Appending) → Reading a i p → Agrees e a.core.entries → Read (k a).1)
      → Read (proceed out.0 (λ _. k) out.1).1
  Resolved-then e i p (ok _, a) k x h = h a x.0 x.1
  Resolved-then e i p (err y, a) k x h = x

  -- Whether the loop ends or throws, the log is a chain of known links.
  pub append_entries-Read :
      (es : List LogEntry) (a : Appending) (k p : ℕ)
      → b.snapshot ≡ none
      → Contiguous (suc k) es
      → Chain Known p es
      → Reading a k p
      → Read (append_entries es a).1
  unfolding append_entries
  append_entries-Read [] a k p n c h r = r.read
  append_entries-Read (e ∷ es) a k p n c h r =
      Resolved-then e k p (resolve_conflict e a) (extend_log e >> append_entries es)
        (resolve_conflict-Resolved e a k p c.0 r)
        (λ t rt agrees.
          Extended-then e (extend_log e t) (append_entries es)
            (extend_log-Extended e t k p c.0 n h.0 rt agrees)
            (λ u ru.
              append_entries-Read es u e.index e.term n
                (subst (λ j. Contiguous (suc j) es) (sym c.0) c.1) h.1 ru))
