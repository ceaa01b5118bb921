-- ===== src/Tddl/Unique.antt =====
-- No number is handed out twice, by any number of generators over one row, in any order of steps.
use turl.Base.{ℕ, ◌+◌, ◌≤◌, ◌<◌, ◌≡◌, ◌≢◌, inl, inr, refl, Bool, true, ◌∷◌, arith, All, dec_lt}
use mathlib.Core.Path.{subst}
use turl.RateLimit.{Comparable}
use turl.RateLimit.Exponential.{Conversion}
use Prim.Native.String.{String}
use turl.Tddl.{
  SequenceTable, Sequence, Agent, Pc, checking, updating, testing, offering, ended, constructor,
  worker, take_next,
}
use turl.Tddl.Table.{IsOptimistic}
use turl.Tddl.System.{
  System, put, IsStarted, Step, run, receive, halt, close, Reach, here, later, Distinct, IsInitial,
}
use turl.Tddl.Known.{IsForward-refl, IsFixed, AtPc, IsForward, Range}
use turl.Tddl.Effect.{advance-IsEffect}
use turl.Tddl.Apart.{
  Free, Inv, at_forward, put-Apart, put_case, put_case_ne, All-weaken, Range-below, Range-apart,
  Range-Free,
}

module _ (T : SequenceTable) (id : ℕ) (o : IsOptimistic T id) where
  open o use {sequence_of, version_of}

  -- A generator changes without handing out a number: its range stays, or comes from above the old
  -- number of the row.
  changed_Inv :
      (u : System T) (i : ℕ) (s' : T.State) (a : Agent)
      → Inv T id o u
      → IsForward T id o u.table s'
      → IsFixed id a.sequence
      → AtPc T id o s' a.sequence a.stopped a.pc
      → Range T id o u.table (u.agents i).sequence s' a.sequence
      → Inv T id o (record u { table = s'; agents = put u.agents i a })
  changed_Inv u i s' a v forward fixed at range = record {
    fixed = λ j. put_case (λ b. IsFixed id b.sequence) u.agents i a j fixed (v.fixed j);
    at_pc = λ j.
        put_case (λ b. AtPc T id o s' b.sequence b.stopped b.pc) u.agents i a j at
          (at_forward T id o u.table s' (u.agents j).sequence (u.agents j).stopped (u.agents j).pc
            forward (v.at_pc j));
    below = λ j.
        put_case (λ b. b.sequence.max ≤ sequence_of s') u.agents i a j
          (Range-below T id o u i s' a v forward range)
          (omega (arith, v.below j, forward.sequence));
    apart = put-Apart T id o u.agents i a v.apart (Range-apart T id o u i s' a v range);
    issued_below =
        All-weaken _ _ u.issued (λ n h. omega (arith, h, forward.sequence)) v.issued_below;
    issued_free = λ j.
        put_case (λ b. All (Free T id o b.sequence) u.issued) u.agents i a j
          (Range-Free T id o u i s' a v range) (v.issued_free j);
    distinct = v.distinct;
  }

  close_AtPc :
      (s : T.State) (q : Sequence) (stopped : Bool) (pc : Pc)
      → IsStarted pc
      → AtPc T id o s q stopped pc
      → AtPc T id o s q true pc
  close_AtPc s q stopped (checking constructor) st at = absurd st
  close_AtPc s q stopped (checking worker) st at = tt
  close_AtPc s q stopped (updating constructor row) st at = absurd st
  close_AtPc s q stopped (updating worker row) st at = at
  close_AtPc s q stopped testing st at = tt
  close_AtPc s q stopped (offering n) st at = at
  close_AtPc s q stopped ended st at = tt

  module _ (u : System T) (i n : ℕ) (v : Inv T id o u) (at : (u.agents i).pc ≡ offering n) where
    offered : (n ≡ (u.agents i).sequence.curr) × (n < (u.agents i).sequence.max)
    offered =
        subst (λ pc. AtPc T id o u.table (u.agents i).sequence (u.agents i).stopped pc) at
          (v.at_pc i)

    next_curr : (take_next (u.agents i).sequence).curr ≡ n + 1
    unfolding take_next
    next_curr = omega (arith, offered.0, offered.1, v.below i, o.column u.table)

    next_max : (take_next (u.agents i).sequence).max ≡ (u.agents i).sequence.max
    unfolding take_next
    next_max = refl

    next-IsFixed : IsFixed id (take_next (u.agents i).sequence)
    unfolding take_next
    next-IsFixed = omega (arith, v.fixed i)

    -- The number that is received belongs to no other generator.
    not_owned : (j : ℕ) → i ≢ j → Free T id o (u.agents j).sequence n
    not_owned j ne = elim (dec_lt n (u.agents j).sequence.curr) [
      | yes less ↦ inl less
      | no more ↦ elim (dec_lt n (u.agents j).sequence.max) [
        | yes inside ↦
            absurd (v.apart i j n ne (omega (arith, offered.0), offered.1) (omega arith, inside))
        | no above ↦ inr (omega arith)
      ]
    ]

    received-Free :
        (m : ℕ)
        → Free T id o (u.agents i).sequence m
        → Free T id o (take_next (u.agents i).sequence) m
    received-Free m (inl less) = inl (omega (arith, less, next_curr, offered.0))
    received-Free m (inr more) = inr (omega (arith, more, next_max))

    received_ne : (m : ℕ) → Free T id o (u.agents i).sequence m → m ≢ n
    received_ne m (inl less) = omega (arith, less, offered.0)
    received_ne m (inr more) = omega (arith, more, offered.1)

    abbrev received : Agent
    received = record (u.agents i) { sequence = take_next (u.agents i).sequence; pc = testing }

    received-Inv : Inv T id o (record u { agents = put u.agents i received; issued = n ∷ u.issued })
    received-Inv = record {
      fixed =
          λ j. put_case (λ b. IsFixed id b.sequence) u.agents i received j next-IsFixed (v.fixed j);
      at_pc = λ j.
          put_case (λ b. AtPc T id o u.table b.sequence b.stopped b.pc) u.agents i received j tt
            (v.at_pc j);
      below = λ j.
          put_case (λ b. b.sequence.max ≤ sequence_of u.table) u.agents i received j
            (omega (arith, next_max, v.below i)) (v.below j);
      apart = put-Apart T id o u.agents i received v.apart (λ j m ne own other.
          v.apart i j m ne
            (omega (arith, own.0, next_curr, offered.0), omega (arith, own.1, next_max)) other);
      issued_below = (omega (arith, offered.1, v.below i), v.issued_below);
      issued_free = λ j.
          put_case_ne (λ b. All (Free T id o b.sequence) (n ∷ u.issued)) u.agents i received j
            (
              inl (omega (arith, next_curr)),
              All-weaken _ _ u.issued (λ m free. received-Free m free) (v.issued_free i),
            )
            (λ ne. (not_owned j ne, v.issued_free j));
      distinct =
          (All-weaken _ _ u.issued (λ m free. received_ne m free) (v.issued_free i), v.distinct);
    }

  run_Inv :
      ⦃c : Comparable String⦄ (convert : Conversion) (u v : System T)
      → Inv T id o u
      → Step T convert u v
      → Inv T id o v
  run_Inv convert u v h (run i e) =
      let a = u.agents i in
      let effect =
        advance-IsEffect T id o convert u.table a.sequence a.stopped a.pc (h.fixed i) (h.at_pc i) in
      rw e (changed_Inv u i _ _ h effect.forward effect.fixed effect.at_pc effect.range)
  run_Inv convert u v h (receive i n p e) = rw e (received-Inv u i n h p)
  run_Inv convert u v h (halt i n p stop e) = rw e (
      changed_Inv u i u.table (record (u.agents i) { pc = ended }) h (IsForward-refl T id o u.table)
        (h.fixed i) tt (inl (refl, refl)))
  run_Inv convert u v h (close i started e) = rw e (
      changed_Inv u i u.table (record (u.agents i) { stopped = true }) h
        (IsForward-refl T id o u.table) (h.fixed i)
        (close_AtPc u.table (u.agents i).sequence (u.agents i).stopped (u.agents i).pc started
          (h.at_pc i))
        (inl (refl, refl)))

  initial_Inv : (u : System T) → IsInitial T id u → Inv T id o u
  initial_Inv u h = record {
    fixed = λ i. record {
      row = (h.new i).row;
      step_pos = (h.new i).step_pos;
      step_fits = (h.new i).step_fits;
    };
    at_pc = λ i. rw (h.new i).pc (h.new i).stopped;
    below = λ i. omega (arith, (h.new i).max);
    apart = λ i j n ne own other. absurd (omega (arith, own.1, (h.new i).max));
    issued_below = rw h.issued tt;
    issued_free = λ i. rw h.issued tt;
    distinct = rw h.issued tt;
  }

  Reach-Inv :
      ⦃c : Comparable String⦄ (convert : Conversion) (u : System T) {v : System T}
      → Inv T id o u
      → Reach T convert u v
      → Inv T id o v
  Reach-Inv convert u h here = h
  Reach-Inv convert u h (later r st) = run_Inv convert _ _ (Reach-Inv convert u h r) st

-- With a table under an optimistic lock: from new generators over one row, with steps from 1 to
-- below 2 ^ 63, no order of their steps hands out a number twice, and every number handed out is
-- below the row's number.
pub Reach-Distinct :
    (T : SequenceTable) (id : ℕ) (o : IsOptimistic T id) ⦃c : Comparable String⦄
    (convert : Conversion) (u v : System T)
    → IsInitial T id u
    → Reach T convert u v
    → Distinct v.issued × All (λ n. n < o.sequence_of v.table) v.issued
Reach-Distinct T id o convert u v start r =
    let inv = Reach-Inv T id o convert u (initial_Inv T id o u start) r in
    (inv.distinct, inv.issued_below)
