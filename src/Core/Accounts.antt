-- ===== src/Core/Accounts.antt =====
-- The effects of a step account for the whole change of the object: the hard state, if anything of
-- it changed, and the cut and the new entries of the log.
use node_raft_rsm.Base.{
  ℕ, suc, ◌+◌, ◌≤◌, ◌<◌, ◌≡◌, refl, sym, ◌∙◌, ap, ◌⊎◌, inl, inr, Text, Bytes, last?, last?-snoc,
  leb, ◌==◌, Option, none, some, List, [], ◌∷◌, ◌++◌, Result, Exec, ok, err, proceed, ◌>>◌, arith,
  Bool-cases, Option-cases,
}
use mathlib.Core.List.{append-nil, append_assoc}
use node_raft_rsm.Types.{
  NodeId, leader, EntryType, LogEntry, Snapshot, HardState, RaftMessage, append_entries_request,
}
use node_raft_rsm.Core.State.{
  RaftCore, State, Error, overwrite_committed, non_contiguous, hard_state, find_entry, boundary,
  last_index, last_log_index,
}
use node_raft_rsm.Core.Leader.{append_local}
use node_raft_rsm.Core.Handlers.{Appending, resolve_conflict, extend_log, append_entries}
use node_raft_rsm.Core.Log.{
  below, find_entry-beyond, find_entry-range, last_index-Contiguous, length-below, Contiguous-below,
}
use node_raft_rsm.Core.Sound.{Extends, truncate-Extends, push-Extends}
use node_raft_rsm.Core.Totality.{Totality-Closed}

-- A log after it is cut, if it is.
abbrev pub cut : Option ℕ → List LogEntry → List LogEntry
cut none es = es
cut (some k) es = below k es

-- The indexes rise, each above the one before and the first above n.
abbrev pub Above : ℕ → List LogEntry → Type 0
Above n [] = Unit {0}
Above n (e ∷ es) = (n < e.index) × Above e.index es

abbrev pub Rising : List LogEntry → Type 0
Rising [] = Unit {0}
Rising (e ∷ es) = Above e.index es

-- The entries of a message come in the order of their indexes.
abbrev pub Ordered : RaftMessage → Type 0
Ordered (append_entries_request m) = Rising m.entries
Ordered m = Unit {0}

module _ (b : RaftCore) where
  -- The loop of `#handleAppendRequest`, which began with the log `old`, before the entries `es`.
  pub record Traced (hard : HardState) (old : List LogEntry) (a : Appending) (es : List LogEntry)
      : Type 0 where
    pub kept : Extends b a.core
    pub same_hard : hard_state a.core ≡ hard
    pub split : a.core.entries ≡ cut a.truncate_from old ++ a.appended
    pub beyond : (k : ℕ) → a.truncate_from ≡ some k → b.commit_index < k
    pub phase :
        ((a.truncate_from ≡ none) × (a.appended ≡ []) × Rising es)
        ⊎ Above (last_log_index a.core) es

  Rising-of-Above : (n : ℕ) (es : List LogEntry) → Above n es → Rising es
  Rising-of-Above n [] h = tt
  Rising-of-Above n (e ∷ es) h = h.1

  missing_above :
      (old : List LogEntry) (a : Appending) (e : LogEntry)
      → Extends b a.core
      → last_log_index a.core < e.index
      → find_entry a.core.entries e.index ≡ none
  missing_above old a e x h =
      find_entry-beyond (suc (boundary a.core.snapshot)) e.index a.core.entries x.log.contiguous
        (omega (arith, last_index-Contiguous a.core.snapshot a.core.entries x.log.contiguous))

  last-below :
      (a : Appending) (k : ℕ) (e : LogEntry)
      → Extends b a.core
      → find_entry a.core.entries k ≡ some e
      → last_log_index (record a.core { entries = below k a.core.entries }) < k
  last-below a k e x h =
      let (lo, hi, at) = find_entry-range _ k a.core.entries e x.log.contiguous h in
      let c = Contiguous-below (suc (boundary a.core.snapshot)) k a.core.entries x.log.contiguous in
      omega (
        arith,
        last_index-Contiguous a.core.snapshot (below k a.core.entries) c,
        length-below (suc (boundary a.core.snapshot)) k a.core.entries x.log.contiguous lo
            (omega (arith, hi)),
      )

  last-push :
      (s : Option Snapshot) (es : List LogEntry) (e : LogEntry)
      → last_index (last? (es ++ e ∷ [])) s ≡ e.index
  unfolding last_index
  last-push s es e = rw (last?-snoc es e)

  Above-rest :
      (e : LogEntry) (es : List LogEntry) (a : Appending)
      → ((a.truncate_from ≡ none) × (a.appended ≡ []) × Rising (e ∷ es))
        ⊎ Above (last_log_index a.core) (e ∷ es)
      → Above e.index es
  Above-rest e es a (inl p) = p.2
  Above-rest e es a (inr p) = p.1

  untouched :
      (old : List LogEntry) (a : Appending)
      → a.core.entries ≡ cut a.truncate_from old ++ a.appended
      → a.truncate_from ≡ none
      → a.appended ≡ []
      → a.core.entries ≡ old
  untouched old a split no_cut no_new = split ∙ (rw (no_cut, no_new) (append-nil old))

  resolve_conflict-Traced :
      (hard : HardState) (old : List LogEntry) (e : LogEntry) (es : List LogEntry) (a : Appending)
      → Traced hard old a (e ∷ es)
      → (resolve_conflict e a).0 ≡ ok tt
      → Traced hard old (resolve_conflict e a).1 (e ∷ es)
  unfolding resolve_conflict
  resolve_conflict-Traced hard old e es a t done =
      elim (Option-cases (find_entry a.core.entries e.index)) [
        | inl n ↦ rw (n, resolve_conflict) t
        | inr (f, n) ↦ elim (Bool-cases (f.term == e.term)) [
          | inl s ↦ rw (n, resolve_conflict, s) t
          | inr s ↦ elim (Bool-cases (leb e.index a.core.commit_index)) [
            | inl l ↦ let bad = rw (n, resolve_conflict, s, l) at done in absurd (cc bad)
            | inr l ↦ elim t.phase [
              | inr above ↦ absurd (cc (missing_above old a e t.kept above.0, n))
              | inl (no_cut, no_new, rising) ↦
                  rw (n, resolve_conflict, s, l)
                    (record {
                      kept = truncate-Extends b a.core e.index t.kept (ground arith) (
                          let (lo, hi, at) =
                            find_entry-range _ e.index a.core.entries f t.kept.log.contiguous n in
                          omega (arith, hi));
                      same_hard = t.same_hard;
                      split =
                          rw (untouched old a t.split no_cut no_new, no_new) (sym (append-nil _));
                      beyond = λ k h. ground (arith, t.kept.commit_grows);
                      phase = inr (last-below a e.index f t.kept n, rising);
                    })
            ]
          ]
        ]
      ]

  extend_log-Traced :
      (hard : HardState) (old : List LogEntry) (e : LogEntry) (es : List LogEntry) (a : Appending)
      → Traced hard old a (e ∷ es)
      → (extend_log e a).0 ≡ ok tt
      → Traced hard old (extend_log e a).1 es
  unfolding extend_log
  extend_log-Traced hard old e es a t done =
      elim (Option-cases (find_entry a.core.entries e.index)) [
        | inr (f, n) ↦
            rw (n, extend_log)
              (record {
                kept = t.kept;
                same_hard = t.same_hard;
                split = t.split;
                beyond = t.beyond;
                phase = elim t.phase [
                  | inr above ↦ absurd (cc (missing_above old a e t.kept above.0, n))
                  | inl (no_cut, no_new, rising) ↦
                      inl (no_cut, no_new, Rising-of-Above e.index es rising)
                ];
              })
        | inl n ↦ elim (Bool-cases (e.index == last_log_index a.core + 1)) [
          | inr s ↦ let bad = rw (n, extend_log, s) at done in absurd (cc bad)
          | inl s ↦
              rw (n, extend_log, s)
                (record {
                  kept = push-Extends b a.core e t.kept (ground arith);
                  same_hard = t.same_hard;
                  split = rw t.split (append_assoc _ a.appended (e ∷ []));
                  beyond = t.beyond;
                  phase =
                      inr (
                        rw (last-push a.core.snapshot a.core.entries e)
                          (Above-rest e es a t.phase));
                })
        ]
      ]

  proceed-Traced :
      (hard : HardState) (old : List LogEntry) (es : List LogEntry) (r : Result Error Unit)
      (k : Exec Error Appending Unit) (a : Appending)
      → (proceed r (λ _. k) a).0 ≡ ok tt
      → (r ≡ ok tt → (k a).0 ≡ ok tt → Traced hard old (k a).1 es)
      → Traced hard old (proceed r (λ _. k) a).1 es
  proceed-Traced hard old es (ok tt) k a done h = h refl done
  proceed-Traced hard old es (err e) k a done h = absurd (cc done)

  pub append_entries-Traced :
      (hard : HardState) (old : List LogEntry) (es : List LogEntry) (a : Appending)
      → Traced hard old a es
      → (append_entries es a).0 ≡ ok tt
      → Traced hard old (append_entries es a).1 []
  unfolding append_entries
  append_entries-Traced hard old [] a t done = t
  append_entries-Traced hard old (e ∷ es) a t done =
      proceed-Traced hard old [] (resolve_conflict e a).0 (extend_log e >> append_entries es) _ done
        (λ resolved rest.
          proceed-Traced hard old [] (extend_log e (resolve_conflict e a).1).0 (append_entries es) _
            rest
            (λ extended done'.
              append_entries-Traced hard old es _
                (extend_log-Traced hard old e es (resolve_conflict e a).1
                  (resolve_conflict-Traced hard old e es a t resolved) extended)
                done'))

-- What the effects say of the change from the object `b`.
pub record Accounts (b : RaftCore) (s : State) : Type 0 where
  pub kept : Extends b s.core
  pub term_grows : b.current_term ≤ s.core.current_term
  pub vote_kept :
      (v : NodeId)
      → s.core.current_term ≡ b.current_term
      → b.voted_for ≡ some v
      → s.core.voted_for ≡ some v
  pub synced :
      ((s.effects.hard_state ≡ none) × (hard_state s.core ≡ hard_state b))
      ⊎ (s.effects.hard_state ≡ some (hard_state s.core))
  pub logged : s.core.entries ≡ cut s.effects.truncate_from b.entries ++ s.effects.entries
  pub beyond : (k : ℕ) → s.effects.truncate_from ≡ some k → b.commit_index < k
  pub no_snapshot : s.effects.snapshot ≡ none

module _ (b : RaftCore) where
  abbrev pub Whole : State → Type 0
  Whole = Accounts b

  -- The entries of an AppendEntries request stop the step, once the term has been adopted and the
  -- entries before have been taken.
  pub record Interrupted (e : Error) (c : RaftCore) : Type 0 where
    pub error : (e ≡ overwrite_committed) ⊎ (e ≡ non_contiguous)
    pub kept : Extends b c
    pub term_grows : b.current_term ≤ c.current_term
    pub vote_kept :
        (v : NodeId) → c.current_term ≡ b.current_term → b.voted_for ≡ some v → c.voted_for ≡ some v

  -- What a throw leaves: the object as it was, or what an interrupted request leaves.
  abbrev pub Broken : Error → State → Type 0
  Broken e s = (s.core ≡ b) ⊎ Interrupted e s.core

  pub append_local-Accounts :
      (type : EntryType) (payload : Bytes) (id : Option Text) (s : State)
      → s.core.role ≡ leader
      → Whole s
      → Whole (append_local type payload id s)
  unfolding append_local
  append_local-Accounts type payload id s r a = record {
    kept = (Totality-Closed b).append_locally type payload id s r a.kept;
    term_grows = a.term_grows;
    vote_kept = a.vote_kept;
    synced = a.synced;
    logged = rw a.logged (append_assoc _ s.effects.entries _);
    beyond = a.beyond;
    no_snapshot = a.no_snapshot;
  }

  -- A change that leaves the log, the term, the vote and the commit index, and sends messages.
  pub plain-Accounts :
      (s t : State)
      → Extends b t.core
      → hard_state t.core ≡ hard_state s.core
      → t.core.entries ≡ s.core.entries
      → t.effects.hard_state ≡ s.effects.hard_state
      → t.effects.truncate_from ≡ s.effects.truncate_from
      → t.effects.entries ≡ s.effects.entries
      → t.effects.snapshot ≡ s.effects.snapshot
      → Whole s
      → Whole t
  plain-Accounts s t x h e fh ft fe fs a = record {
    kept = x;
    term_grows = omega (arith, a.term_grows, ap (λ (z : HardState). z.current_term) h);
    vote_kept = λ v same_term w.
        ap (λ (z : HardState). z.voted_for) h
        ∙ a.vote_kept v (sym (ap (λ (z : HardState). z.current_term) h) ∙ same_term) w;
    synced = rw (fh, h) a.synced;
    logged = rw (e, ft, fe) a.logged;
    beyond = λ k w. a.beyond k (sym ft ∙ w);
    no_snapshot = fs ∙ a.no_snapshot;
  }

  -- A change of the hard state, noted in the effects.
  pub noted-Accounts :
      (s t : State)
      → Extends b t.core
      → b.current_term ≤ t.core.current_term
      → ((v : NodeId)
          → t.core.current_term ≡ b.current_term
          → b.voted_for ≡ some v
          → t.core.voted_for ≡ some v)
      → t.effects.hard_state ≡ some (hard_state t.core)
      → t.core.entries ≡ s.core.entries
      → t.effects.truncate_from ≡ s.effects.truncate_from
      → t.effects.entries ≡ s.effects.entries
      → t.effects.snapshot ≡ s.effects.snapshot
      → Whole s
      → Whole t
  noted-Accounts s t x tg vk n e ft fe fs a = record {
    kept = x;
    term_grows = tg;
    vote_kept = vk;
    synced = inr n;
    logged = rw (e, ft, fe) a.logged;
    beyond = λ k w. a.beyond k (sym ft ∙ w);
    no_snapshot = fs ∙ a.no_snapshot;
  }
