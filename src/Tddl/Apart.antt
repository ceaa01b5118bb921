-- ===== src/Tddl/Apart.antt =====
-- The invariant of any number of generators over one row: their ranges stay apart, and no number of a range
-- has been handed out.
use turl.Base.{
  ℕ, ◌≤◌, ◌<◌, ◌≡◌, ◌≢◌, ◌⊎◌, inl, inr, sym, ◌∙◌, Bool, false, List, [], ◌∷◌, ◌==◌, ==_iff, arith,
  Bool-cases, All,
}
use turl.Tddl.{
  Row, SequenceTable, Sequence, Agent, Pc, checking, updating, testing, offering, ended,
  constructor, worker,
}
use turl.Tddl.Table.{IsOptimistic}
use turl.Tddl.System.{System, put, Distinct}
use turl.Tddl.Known.{IsFixed, IsRead, AtPc, IsForward, Range}

-- The numbers that a generator may still hand out.
abbrev pub Owns : Sequence → ℕ → Type 0
Owns q n = (q.curr ≤ n) × (n < q.max)

pub put_case :
    (P : Agent → Type 0) (f : ℕ → Agent) (i : ℕ) (a : Agent) (j : ℕ)
    → P a
    → P (f j)
    → P (put f i a j)
put_case P f i a j new old = elim (Bool-cases (i == j)) [ inl e ↦ rw e new | inr e ↦ rw e old ]

pub put_case_ne :
    (P : Agent → Type 0) (f : ℕ → Agent) (i : ℕ) (a : Agent) (j : ℕ)
    → P a
    → (i ≢ j → P (f j))
    → P (put f i a j)
put_case_ne P f i a j new old = elim (Bool-cases (i == j)) [
  | inl e ↦ rw e new
  | inr e ↦ rw e (old (ground arith))
]

eq_false : (i j : ℕ) → (i == j) ≡ false → i ≢ j
eq_false i j h = ground arith

pub All-weaken : (P Q : ℕ → Type 0) (ns : List ℕ) → ((n : ℕ) → P n → Q n) → All P ns → All Q ns
All-weaken P Q [] f h = tt
All-weaken P Q (n ∷ ns) f h = (f n h.0, All-weaken P Q ns f h.1)

All-both :
    (P Q R : ℕ → Type 0) (ns : List ℕ)
    → ((n : ℕ) → P n → Q n → R n)
    → All P ns
    → All Q ns
    → All R ns
All-both P Q R [] f h k = tt
All-both P Q R (n ∷ ns) f h k = (f n h.0 k.0, All-both P Q R ns f h.1 k.1)

module _ (T : SequenceTable) (id : ℕ) (o : IsOptimistic T id) where
  open o use {sequence_of, version_of}

  abbrev Apart : (ℕ → Agent) → Type 0
  Apart f = (i j n : ℕ) → i ≢ j → Owns (f i).sequence n → Owns (f j).sequence n → ⊥

  abbrev pub Free : Sequence → ℕ → Type 0
  Free q n = (n < q.curr) ⊎ (q.max ≤ n)

  pub record Inv (u : System T) : Type 0 where
    pub fixed : (i : ℕ) → IsFixed id (u.agents i).sequence
    pub at_pc :
        (i : ℕ) → AtPc T id o u.table (u.agents i).sequence (u.agents i).stopped (u.agents i).pc
    pub below : (i : ℕ) → (u.agents i).sequence.max ≤ sequence_of u.table
    pub apart : Apart u.agents
    pub issued_below : All (λ n. n < sequence_of u.table) u.issued
    pub issued_free : (i : ℕ) → All (Free (u.agents i).sequence) u.issued
    pub distinct : Distinct u.issued

  IsRead-forward :
      (s s' : T.State) (row : Row)
      → IsForward T id o s s'
      → IsRead T id o s row
      → IsRead T id o s' row
  IsRead-forward s s' row f r = elim f.version [
    | inl (same, number) ↦ record {
      row = r.row;
      version = omega (arith, same, r.version);
      sequence = λ h. r.sequence (h ∙ same) ∙ sym number;
    }
    | inr more ↦ record {
      row = r.row;
      version = omega (arith, more, r.version);
      sequence = λ h. absurd (omega (arith, h, more, r.version));
    }
  ]

  pub at_forward :
      (s s' : T.State) (q : Sequence) (stopped : Bool) (pc : Pc)
      → IsForward T id o s s'
      → AtPc T id o s q stopped pc
      → AtPc T id o s' q stopped pc
  at_forward s s' q stopped (checking constructor) f at = at
  at_forward s s' q stopped (checking worker) f at = tt
  at_forward s s' q stopped (updating constructor row) f at = (at.0, IsRead-forward s s' row f at.1)
  at_forward s s' q stopped (updating worker row) f at = IsRead-forward s s' row f at
  at_forward s s' q stopped testing f at = tt
  at_forward s s' q stopped (offering n) f at = at
  at_forward s s' q stopped ended f at = tt

  -- Generators stay apart when one of them is given numbers that the others cannot have.
  pub put-Apart :
      (f : ℕ → Agent) (i : ℕ) (a : Agent)
      → Apart f
      → ((j n : ℕ) → i ≢ j → Owns a.sequence n → Owns (f j).sequence n → ⊥)
      → Apart (put f i a)
  put-Apart f i a h new j k n ne own other = elim (Bool-cases (i == j)) [
    | inl e ↦ elim (Bool-cases (i == k)) [
      | inl e' ↦ absurd (ne (sym ((==_iff i j).0 e) ∙ (==_iff i k).0 e'))
      | inr e' ↦ new k n (eq_false i k e') (rw e at own) (rw e' at other)
    ]
    | inr e ↦ elim (Bool-cases (i == k)) [
      | inl e' ↦ new j n (eq_false i j e) (rw e' at other) (rw e at own)
      | inr e' ↦ h j k n ne (rw e at own) (rw e' at other)
    ]
  ]

  module _ (u : System T) (i : ℕ) (s' : T.State) (a : Agent) (v : Inv u) where
    pub Range-below :
        IsForward T id o u.table s'
        → Range T id o u.table (u.agents i).sequence s' a.sequence
        → a.sequence.max ≤ sequence_of s'
    Range-below forward (inl same) = omega (arith, v.below i, forward.sequence, same.1)
    Range-below forward (inr fresh) = fresh.1

    pub Range-apart :
        Range T id o u.table (u.agents i).sequence s' a.sequence
        → (j n : ℕ) → i ≢ j
        → Owns a.sequence n
        → Owns (u.agents j).sequence n
        → ⊥
    Range-apart (inl same) j n ne own other =
        v.apart i j n ne (omega (arith, own.0, same.0), omega (arith, own.1, same.1)) other
    Range-apart (inr fresh) j n ne own other =
        absurd (omega (arith, own.0, fresh.0, other.1, v.below j))

    pub Range-Free :
        Range T id o u.table (u.agents i).sequence s' a.sequence → All (Free a.sequence) u.issued
    Range-Free (inl same) = rw (same.0, same.1) (v.issued_free i)
    Range-Free (inr fresh) =
        All-weaken _ _ u.issued (λ n h. inl (omega (arith, h, fresh.0))) v.issued_below
