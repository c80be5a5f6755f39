-- ===== src/Node/Retries.antt =====
-- packages/raft-node/src/node.ts: a command that is proposed again once it has completed.
use node_raft_rsm.Base.{
  ℕ, suc, ◌+◌, All, ◌⊎◌, sym, subst, ◌≤◌, ◌≡◌, refl, ap, ◌∙◌, inl, inr, Text, Bytes, Bool, true,
  false, not, ◌||◌, same, same_refl, get, put, length, ltb, if◌then◌else◌, Option, none, some, List,
  [], ◌∷◌, ok, err, arith, Bool-cases,
}
use node_raft_rsm.Types.{LogEntry, leader}
use node_raft_rsm.Core.Leader.{is_leader}
use node_raft_rsm.Node.{
  Completed, command_id_conflict, Node, trimmed, answered, completes, propose_command,
}

trimmed-short : {A : Type 0} (r : ℕ) (xs : List A) → length xs ≤ r → trimmed r xs ≡ xs
trimmed-short r [] h = refl
trimmed-short r (x ∷ xs) h =
    let fits : ltb r (length (x ∷ xs)) ≡ false = ground arith in rw fits refl

length-put :
    {V : Type 0} (m : List (Text × V)) (k : Text) (v : V) → length (put m k v) ≤ suc (length m)
length-put [] k v = omega arith
length-put ((j, w) ∷ m) k v = ground (arith, length-put m k v)

-- The key stands in the table with the value, with at most j entries behind it.
abbrev Placed : {V : Type 0} → Text → V → ℕ → List (Text × V) → Type 0
Placed id c j [] = ⊥
Placed id c j ((k, w) ∷ m) =
    ((k ≡ id) × (w ≡ c) × (length m ≤ j)) ⊎ ((same k id ≡ false) × Placed id c j m)

Placed-later :
    {V : Type 0} (id : Text) (c : V) (j : ℕ) (m : List (Text × V))
    → Placed id c j m
    → Placed id c (suc j) m
Placed-later id c j [] p = p
Placed-later id c j ((k, w) ∷ m) (inl (e, f, l)) = inl (e, f, omega (arith, l))
Placed-later id c j ((k, w) ∷ m) (inr (n, p)) = inr (n, Placed-later id c j m p)

-- A key that is new goes to the end.
new-Placed :
    {V : Type 0} (id : Text) (c : V) (m : List (Text × V))
    → get m id ≡ none
    → Placed id c 0 (put m id c)
new-Placed id c [] h = inl (refl, refl, omega arith)
new-Placed id c ((k, w) ∷ m) h = elim (Bool-cases (same k id)) [
  | inl g ↦ absurd (cc (rw g at h))
  | inr g ↦ rw g (inr (g, new-Placed id c m (rw g at h)))
]

-- Another key goes behind it, or keeps its place.
put-Placed :
    {V : Type 0} (id k : Text) (c v : V) (j : ℕ) (m : List (Text × V))
    → same id k ≡ false
    → Placed id c j m
    → Placed id c (suc j) (put m k v)
put-Placed id k c v j [] other p = absurd p
put-Placed id k c v j ((i, w) ∷ m) other (inl (e, f, l)) =
    let apart : same i k ≡ false = ap (λ x. same x k) e ∙ other in
    rw apart (inl (e, f, omega (arith, length-put m k v, l)))
put-Placed id k c v j ((i, w) ∷ m) other (inr (n, p)) = elim (Bool-cases (same i k)) [
  | inl g ↦ rw g (inr (n, Placed-later id c j m p))
  | inr g ↦ rw g (inr (n, put-Placed id k c v j m other p))
]

-- The trimming spares it while those behind it leave room.
trimmed-Placed :
    {V : Type 0} (r j : ℕ) (id : Text) (c : V) (m : List (Text × V))
    → suc j ≤ r
    → Placed id c j m
    → Placed id c j (trimmed r m)
trimmed-Placed r j id c [] h p = p
trimmed-Placed r j id c ((k, w) ∷ m) h (inl (e, f, l)) =
    subst (Placed id c j) (sym (trimmed-short r ((k, w) ∷ m) (omega (arith, l, h)))) (inl (e, f, l))
trimmed-Placed r j id c ((k, w) ∷ m) h (inr (n, p)) =
    elim (Bool-cases (ltb r (length ((k, w) ∷ m)))) [
      | inl f ↦ rw f (trimmed-Placed r j id c m h p)
      | inr f ↦ rw f (inr (n, p))
    ]

get-Placed :
    {V : Type 0} (id : Text) (c : V) (j : ℕ) (m : List (Text × V))
    → Placed id c j m
    → get m id ≡ some c
get-Placed id c j [] p = absurd p
get-Placed id c j ((k, w) ∷ m) (inl (e, f, l)) =
    let own : same k id ≡ true = ap (λ x. same x id) e ∙ same_refl id in rw own (ap some f)
get-Placed id c j ((k, w) ∷ m) (inr (n, p)) = rw n (get-Placed id c j m p)

both_hold : (a b : Bool) → a ≡ true → b ≡ true → (not a || not b) ≡ false
both_hold a b h g = ground arith

module _ {Command Machine Value : Type 0} (decode : Bytes → Option Command)
    (run : Command → LogEntry → Machine → Option (Value × Machine)) (digest : Bytes → Text) where
  -- What the answer to a pending command leaves.
  record Answered (n t : Node Machine Value) : Type 0 where
    core : t.core ≡ n.core
    started : t.started ≡ n.started
    healthy : t.healthy ≡ n.healthy
    completed : t.completed ≡ n.completed
    retention : t.retention ≡ n.retention

  answered-Answered :
      (id : Text) (value : Value) (o : Option Text) (n : Node Machine Value)
      → Answered n (answered decode run digest id value o n)
  answered-Answered id value none n = record {
    core = refl;
    started = refl;
    healthy = refl;
    completed = refl;
    retention = refl;
  }
  answered-Answered id value (some p) n = record {
    core = refl;
    started = refl;
    healthy = refl;
    completed = refl;
    retention = refl;
  }

  -- Commands that complete one after the other.
  pub record Completion : Type 0 where
    pub entry : LogEntry
    pub id : Text
    pub value : Value

  abbrev pub after_completions : List Completion → Node Machine Value → Node Machine Value
  after_completions [] n = n
  after_completions (x ∷ xs) n =
      after_completions xs (completes decode run digest x.entry x.id x.value n)

  kept_retention :
      (e : LogEntry) (id : Text) (value : Value) (n : Node Machine Value)
      → (completes decode run digest e id value n).retention ≡ n.retention
  kept_retention e id value n = (answered-Answered id value (get n.pending id) n).retention

  later-Placed :
      (id : Text) (c : Completed Value) (j : ℕ) (xs : List Completion) (n : Node Machine Value)
      → All (λ x. same id x.id ≡ false) xs
      → suc (j + length xs) ≤ n.retention
      → Placed id c j n.completed
      → Placed id c (j + length xs) (after_completions xs n).completed
  later-Placed id c j [] n others room p = subst (λ k. Placed id c k n.completed) (omega arith) p
  later-Placed id c j (x ∷ xs) n others room p =
      let a = answered-Answered x.id x.value (get n.pending x.id) n in
      let t = answered decode run digest x.id x.value (get n.pending x.id) n in
      let same_count : suc j + length xs ≡ j + length (x ∷ xs) = omega arith in
      subst (λ k. Placed id c k (after_completions (x ∷ xs) n).completed) same_count
        (later-Placed id c (suc j) xs (completes decode run digest x.entry x.id x.value n) others.1
          (omega (arith, room, a.retention))
          (trimmed-Placed t.retention (suc j) id c _ (omega (arith, room, a.retention)) (
            put-Placed id x.id c _ j t.completed others.0
              (subst (Placed id c j) (sym a.completed) p))))

  first-Placed :
      (e : LogEntry) (id : Text) (value : Value) (n : Node Machine Value)
      → get n.completed id ≡ none
      → 1 ≤ n.retention
      → Placed id
          (record { hash = digest e.payload; result = value })
          0
          (completes decode run digest e id value n).completed
  first-Placed e id value n fresh one =
      let a = answered-Answered id value (get n.pending id) n in
      let t = answered decode run digest id value (get n.pending id) n in
      trimmed-Placed t.retention 0 id _ _ (omega (arith, one, a.retention))
        (new-Placed id _ t.completed (ap (λ m. get m id) a.completed ∙ fresh))

  -- A command id that was not in the table of completed commands completes, and so do other ids after
  -- it, one after the other, with it no more than the table retains. A node whose table is the one that
  -- they leave, a started and healthy leader, is asked to propose the id again. The same bytes, told by
  -- their hash, are answered with the result of the first time, and other bytes are a conflict. Nothing
  -- is proposed to the core: the node is left as it is.
  pub propose-completed :
      (e : LogEntry) (id : Text) (value : Value) (payload : Bytes) (later : List Completion)
      (n t : Node Machine Value)
      → get n.completed id ≡ none
      → All (λ x. same id x.id ≡ false) later
      → suc (length later) ≤ n.retention
      → t.completed ≡ (after_completions later (completes decode run digest e id value n)).completed
      → t.started ≡ true
      → t.healthy ≡ true
      → t.core.role ≡ leader
      → propose_command decode run digest id payload t ≡ (
        if same (digest e.payload) (digest payload)
            then ok (some value)
            else err command_id_conflict,
        t,
      )
  unfolding propose_command
  propose-completed e id value payload later n t fresh others room table started healthy lead =
      let runs : (not t.started || not t.healthy) ≡ false =
        both_hold t.started t.healthy started healthy in
      let leads : is_leader t.core.role ≡ true = ap is_leader lead in
      let found : get t.completed id ≡ some (record { hash = digest e.payload; result = value }) =
        ap (λ m. get m id) table
        ∙ get-Placed id _ (0 + length later) _ (
            later-Placed id _ 0 later (completes decode run digest e id value n) others
              (omega (arith, room, kept_retention e id value n))
              (first-Placed e id value n fresh (omega (arith, room)))) in
      elim (Bool-cases (same (digest e.payload) (digest payload))) [
        | inl g ↦ rw (runs, leads, found, g) refl
        | inr g ↦ rw (runs, leads, found, g) refl
      ]
