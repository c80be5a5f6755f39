-- ===== src/Core/Chains.antt =====
-- Logs as chains: which entry was made after an entry of which term.
use node_raft_rsm.Base.{
  ℕ, zero, suc, ◌+◌, ◌-◌, ◌≤◌, ◌<◌, ◌≡◌, refl, sym, ap, subst, ◌∙◌, inl, inr, false, keep, length,
  ltb, leb, ◌==◌, In, In-append_left, if◌then◌else◌, Option, some, List, [], ◌∷◌, ◌++◌, arith,
  Bool-cases,
}
use node_raft_rsm.Types.{LogEntry}
use node_raft_rsm.Core.State.{find_entry, entry_term, or_zero}
use node_raft_rsm.Core.Log.{Contiguous, below, below-nil}

-- An entry of a log, with the term of the entry before it, or 0.
pub record Link : Type 0 where
  pub before : ℕ
  pub entry : LogEntry

abbrev pub links : ℕ → List LogEntry → List Link
links p [] = []
links p (e ∷ es) = record { before = p; entry = e } ∷ links e.term es

abbrev pub Chain : (Link → Type 0) → ℕ → List LogEntry → Type 0
Chain K p [] = Unit {0}
Chain K p (e ∷ es) = K (record { before = p; entry = e }) × Chain K e.term es

abbrev pub last_term : ℕ → List LogEntry → ℕ
last_term p [] = p
last_term p (e ∷ es) = last_term e.term es

pub Chain-mono :
    (K L : Link → Type 0) (p : ℕ) (es : List LogEntry)
    → ((l : Link) → K l → L l)
    → Chain K p es
    → Chain L p es
Chain-mono K L p [] f c = tt
Chain-mono K L p (e ∷ es) f c = (f _ c.0, Chain-mono K L e.term es f c.1)

pub Chain-snoc :
    (K : Link → Type 0) (p : ℕ) (es : List LogEntry) (e : LogEntry)
    → Chain K p es
    → K (record { before = last_term p es; entry = e })
    → Chain K p (es ++ e ∷ [])
Chain-snoc K p [] e c k = (k, tt)
Chain-snoc K p (f ∷ es) e c k = (c.0, Chain-snoc K f.term es e c.1 k)

pub Chain-below :
    (K : Link → Type 0) (p n k : ℕ) (es : List LogEntry)
    → Contiguous n es
    → Chain K p es
    → Chain K p (below k es)
Chain-below K p n k [] c h = tt
Chain-below K p n k (e ∷ es) c h = elim (Bool-cases (ltb e.index k)) [
  | inl g ↦ rw g (h.0, Chain-below K e.term (suc n) k es c.1 h.1)
  | inr g ↦ rw (g, below-nil (suc n) k es (ground arith) c.1) tt
]

links-snoc :
    (p : ℕ) (es : List LogEntry) (e : LogEntry)
    → links p (es ++ e ∷ []) ≡ links p es ++ record { before = last_term p es; entry = e } ∷ []
links-snoc p [] e = refl
links-snoc p (f ∷ es) e = ap (◌∷◌ (record { before = p; entry = f })) (links-snoc f.term es e)

pub In-links_snoc :
    (p : ℕ) (es : List LogEntry) (e : LogEntry) (l : Link)
    → In l (links p es)
    → In l (links p (es ++ e ∷ []))
In-links_snoc p es e l h = rw (links-snoc p es e) (In-append_left (links p es) _ l h)

In-end : (ls : List Link) (l : Link) → In l (ls ++ l ∷ [])
In-end [] l = inl refl
In-end (x ∷ ls) l = inr (In-end ls l)

pub In-links_last :
    (p : ℕ) (es : List LogEntry) (e : LogEntry)
    → In (record { before = last_term p es; entry = e }) (links p (es ++ e ∷ []))
In-links_last p es e = rw (links-snoc p es e) (In-end (links p es) _)

-- The links of a contiguous log are told apart by their indexes.
links-range :
    (n p : ℕ) (es : List LogEntry) (l : Link)
    → Contiguous n es
    → In l (links p es)
    → (n ≤ l.entry.index) × (l.entry.index < n + length es)
links-range n p [] l c h = elim h [ ]
links-range n p (e ∷ es) l c (inl h) =
    let at : l.entry.index ≡ n = ap (λ (x : Link). x.entry.index) h ∙ c.0 in
    (omega arith, omega arith)
links-range n p (e ∷ es) l c (inr h) =
    let (lo, hi) = links-range (suc n) e.term es l c.1 h in (omega arith, omega arith)

pub links_unique :
    (n p : ℕ) (es : List LogEntry) (l m : Link)
    → Contiguous n es
    → In l (links p es)
    → In m (links p es)
    → l.entry.index ≡ m.entry.index
    → l ≡ m
links_unique n p [] l m c h k i = elim h [ ]
links_unique n p (e ∷ es) l m c (inl h) (inl k) i = h ∙ sym k
links_unique n p (e ∷ es) l m c (inl h) (inr k) i = absurd (
    omega
      (arith, links-range (suc n) e.term es m c.1 k, ap (λ (x : Link). x.entry.index) h, c.0, i))
links_unique n p (e ∷ es) l m c (inr h) (inl k) i = absurd (
    omega
      (arith, links-range (suc n) e.term es l c.1 h, ap (λ (x : Link). x.entry.index) k, c.0, i))
links_unique n p (e ∷ es) l m c (inr h) (inr k) i = links_unique (suc n) e.term es l m c.1 h k i

pub links-end :
    (n p : ℕ) (es : List LogEntry) (l : Link)
    → Contiguous n es
    → In l (links p es)
    → l.entry.index < n + length es
links-end n p es l c h = (links-range n p es l c h).1

-- The term at an index, which is 0 before the first entry.
abbrev pub term_before : List LogEntry → ℕ → Option ℕ
term_before es k = if k == 0 then some 0 else entry_term (find_entry es k)

last-found :
    (n p : ℕ) (es : List LogEntry) (e : LogEntry)
    → Contiguous (suc n) (e ∷ es)
    → entry_term (find_entry (e ∷ es) (suc n + length es)) ≡ some (last_term p (e ∷ es))
unfolding find_entry
last-found n p [] e c = ground arith
last-found n p (f ∷ es) e c = ground (arith, last-found (suc n) e.term es f c.1)

-- The term of a log's last entry stands at the log's length.
pub term_before-length :
    (es : List LogEntry) → Contiguous 1 es → term_before es (length es) ≡ some (last_term 0 es)
term_before-length [] c = refl
term_before-length (e ∷ es) c = ground (arith, last-found 0 0 es e c)

all_kept :
    (n k : ℕ) (es : List LogEntry) → k ≤ n → Contiguous n es → keep (λ e. leb k e.index) es ≡ es
all_kept n k [] h c = refl
all_kept n k (e ∷ es) h c = ground (arith, all_kept (suc n) k es (omega arith) c.1)

Chain-tail :
    (K : Link → Type 0) (n p k : ℕ) (es : List LogEntry)
    → Contiguous (suc n) es
    → Chain K p es
    → n < k
    → Chain K (or_zero (entry_term (find_entry es k))) (keep (λ e. leb (suc k) e.index) es)
unfolding find_entry
Chain-tail K n p k [] c h l = tt
Chain-tail K n p k (e ∷ es) c h l =
    let skip : leb (suc k) e.index ≡ false = ground arith in
    elim (Bool-cases (e.index == k)) [
      | inl g ↦ rw (skip, g, all_kept (suc (suc n)) (suc k) es (ground arith) c.1) h.1
      | inr g ↦ rw (skip, g) (Chain-tail K (suc n) e.term k es c.1 h.1 (ground arith))
    ]

-- What a log holds behind an index goes on from the term there.
pub Chain-behind :
    (K : Link → Type 0) (k : ℕ) (es : List LogEntry)
    → Contiguous 1 es
    → Chain K 0 es
    → Chain K (or_zero (term_before es k)) (keep (λ e. leb (suc k) e.index) es)
Chain-behind K zero es c h = rw (all_kept 1 1 es (omega arith) c) h
Chain-behind K (suc k) es c h =
    let away : (suc k == 0) ≡ false = ground arith in
    rw away (Chain-tail K 0 0 (suc k) es c h (omega arith))

pub Contiguous-behind :
    (n k : ℕ) (es : List LogEntry)
    → n ≤ suc k
    → Contiguous n es
    → Contiguous (suc k) (keep (λ e. leb (suc k) e.index) es)
Contiguous-behind n k [] h c = tt
Contiguous-behind n k (e ∷ es) h c = elim (Bool-cases (leb (suc k) e.index)) [
  | inl g ↦
      let at : n ≡ suc k = ground arith in
      rw (g, all_kept (suc n) (suc k) es (omega (arith, at)) c.1)
        (c.0 ∙ at, subst (λ m. Contiguous (suc m) es) at c.1)
  | inr g ↦ rw g (Contiguous-behind (suc n) k es (ground arith) c.1)
]

-- What is sent to a peer, whose next index may be any number, goes on from the entry before.
pub Chain-next :
    (K : Link → Type 0) (next : ℕ) (es : List LogEntry)
    → Contiguous 1 es
    → Chain K 0 es
    → Contiguous (suc (next - 1)) (keep (λ e. leb next e.index) es)
      × Chain K (or_zero (term_before es (next - 1))) (keep (λ e. leb next e.index) es)
Chain-next K zero es c h = rw (all_kept 1 0 es (omega arith) c) (c, h)
Chain-next K (suc k) es c h =
    let back : suc k - 1 ≡ k = omega arith in
    rw back (Contiguous-behind 1 k es (omega arith) c, Chain-behind K k es c h)

some_injective : (x e : LogEntry) → some x ≡ some e → x ≡ e
some_injective x e h = cc

Chain-head :
    (K : Link → Type 0) (n p : ℕ) (es : List LogEntry) (e : LogEntry)
    → Contiguous n es
    → Chain K p es
    → find_entry es n ≡ some e
    → K (record { before = p; entry = e })
unfolding find_entry
Chain-head K n p [] e c h f = absurd (cc f)
Chain-head K n p (x ∷ es) e c h f =
    subst (λ y. K (record { before = p; entry = y })) (some_injective x e (ground arith)) h.0

Chain-at :
    (K : Link → Type 0) (n p k : ℕ) (es : List LogEntry) (e : LogEntry)
    → Contiguous (suc n) es
    → Chain K p es
    → find_entry es (suc k) ≡ some e
    → n < k
    → K (record { before = or_zero (entry_term (find_entry es k)); entry = e })
unfolding find_entry
Chain-at K n p k [] e c h f l = cc
Chain-at K n p k (x ∷ es) e c h f l = elim (Bool-cases (x.index == k)) [
  | inl g ↦
      let at : k ≡ suc n = ground arith in
      rw g (
        Chain-head K (suc k) x.term es e (subst (λ m. Contiguous (suc m) es) (sym at) c.1) h.1
          (ground arith))
  | inr g ↦ rw g (Chain-at K (suc n) x.term k es e c.1 h.1 (ground arith) (ground arith))
]

-- The link of the entry at an index.
pub Chain-link :
    (K : Link → Type 0) (k : ℕ) (es : List LogEntry) (e : LogEntry)
    → Contiguous 1 es
    → Chain K 0 es
    → find_entry es (suc k) ≡ some e
    → K (record { before = or_zero (term_before es k); entry = e })
unfolding find_entry
Chain-link K zero es e c h f = Chain-head K 1 0 es e c h f
Chain-link K (suc k) es e c h f =
    let away : (suc k == 0) ≡ false = ground arith in
    rw away (Chain-at K 0 0 (suc k) es e c h f (omega arith))
