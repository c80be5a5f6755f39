-- ===== src/Core/Agreement.antt =====
-- Two logs made of links that are told apart by index and term: where they agree.
use node_raft_rsm.Base.{
  ℕ, zero, suc, ◌≤◌, ◌≡◌, refl, sym, ap, ◌∙◌, inl, inr, false, ◌==◌, some, List, arith, Bool-cases,
}
use node_raft_rsm.Types.{LogEntry}
use node_raft_rsm.Core.State.{find_entry, or_zero}
use node_raft_rsm.Core.Log.{Contiguous, find_entry-none, find_entry-some, find_entry-range}
use node_raft_rsm.Core.Chains.{Link, Chain, term_before, Chain-link}

-- Where links are told apart by index and term, two logs with an entry of one term at an index agree
-- up to it.
module _ (K : Link → Type 0)
    (apart : (l m : Link)
      → K l
      → K m
      → l.entry.index ≡ m.entry.index
      → l.entry.term ≡ m.entry.term
      → l ≡ m) where
  abbrev pub Agree : List LogEntry → List LogEntry → ℕ → Type 0
  Agree es fs k = (i : ℕ) → i ≤ k → find_entry es i ≡ find_entry fs i

  abbrev Entries : List LogEntry → Type 0
  Entries es = Contiguous 1 es × Chain K 0 es

  Agree-zero : (es fs : List LogEntry) → Contiguous 1 es → Contiguous 1 fs → Agree es fs 0
  Agree-zero es fs c d i l =
      find_entry-none 1 i es c (omega arith) ∙ sym (find_entry-none 1 i fs d (omega arith))

  found_index :
      (k : ℕ) (es : List LogEntry) (e : LogEntry)
      → Contiguous 1 es
      → find_entry es k ≡ some e
      → e.index ≡ k
  found_index k es e c x = (find_entry-range 1 k es e c x).2

  found_before :
      (k : ℕ) (es : List LogEntry) (e : LogEntry)
      → Contiguous 1 es
      → find_entry es (suc (suc k)) ≡ some e
      → (g : LogEntry) × (find_entry es (suc k) ≡ some g)
        × (or_zero (term_before es (suc k)) ≡ g.term)
  found_before k es e c x =
      let (lo, hi, at) = find_entry-range 1 (suc (suc k)) es e c x in
      let (g, found, at_g) = find_entry-some 1 (suc k) es c (omega arith) (omega (arith, hi)) in
      let away : (suc k == 0) ≡ false = ground arith in (g, found, rw (away, found) refl)

  Agree-suc :
      (k : ℕ) (es fs : List LogEntry) (e f : LogEntry)
      → e ≡ f
      → find_entry es (suc k) ≡ some e
      → find_entry fs (suc k) ≡ some f
      → Agree es fs k
      → Agree es fs (suc k)
  Agree-suc k es fs e f same x y a i l = elim (Bool-cases (i == suc k)) [
    | inl g ↦ let at : i ≡ suc k = ground arith in rw at (x ∙ ap some same ∙ sym y)
    | inr g ↦ a i (ground arith)
  ]

  pub Chain-match :
      (k : ℕ) (es fs : List LogEntry) (e f : LogEntry)
      → Entries es
      → Entries fs
      → find_entry es k ≡ some e
      → find_entry fs k ≡ some f
      → e.term ≡ f.term
      → Agree es fs k
  Chain-match zero es fs e f (c, h) (d, g) x y t = Agree-zero es fs c d
  Chain-match (suc zero) es fs e f (c, h) (d, g) x y t =
      let same_link =
        apart _ _ (Chain-link K 0 es e c h x) (Chain-link K 0 fs f d g y)
          (found_index 1 es e c x ∙ sym (found_index 1 fs f d y)) t in
      Agree-suc 0 es fs e f (ap (λ (l : Link). l.entry) same_link) x y (Agree-zero es fs c d)
  Chain-match (suc (suc k)) es fs e f (c, h) (d, g) x y t =
      let same_link =
        apart _ _ (Chain-link K (suc k) es e c h x) (Chain-link K (suc k) fs f d g y)
          (found_index (suc (suc k)) es e c x ∙ sym (found_index (suc (suc k)) fs f d y)) t in
      let (u, found_u, before_u) = found_before k es e c x in
      let (v, found_v, before_v) = found_before k fs f d y in
      Agree-suc (suc k) es fs e f (ap (λ (l : Link). l.entry) same_link) x y (
        Chain-match (suc k) es fs u v (c, h) (d, g) found_u found_v
          (sym before_u ∙ ap (λ (l : Link). l.before) same_link ∙ before_v))
