-- ===== src/Tddl/Progress.antt =====
-- What one undisturbed renewal grants, and a generator that is closed while it has no number left.
use turl.Base.{
  ap, ◌-◌, ℕ, ◌+◌, ◌%◌, ◌^◌, ◌≤◌, ◌≡◌, ◌≢◌, ◌⊎◌, inl, inr, refl, ◌∙◌, Bool, true, false, ◌==◌,
  ==_iff, arith, Bool-cases, leb,
}
use turl.RateLimit.{Comparable}
use turl.RateLimit.Exponential.{Conversion}
use Prim.Native.String.{String}
use turl.Tddl.{
  Row, Updated, SequenceTable, Sequence, Agent, Pc, Caller, checking, updating, testing, offering,
  ended, worker, advance, after_take, after_update, renewed, grant, return_to,
}
use turl.Tddl.Table.{IsOptimistic}
use turl.Tddl.System.{System, put, Step, run, receive, halt, close, Reach, here, later}
use turl.Tddl.Known.{IsFixed}

-- A generator of a closed service that is in the loop `for next >= s.max` of `worker`, or in the
-- `renew` that this loop calls, with its numbers used up.
abbrev pub IsSpinning : Agent → Type 0
IsSpinning a =
    (a.stopped ≡ true)
    × (a.sequence.max ≤ a.sequence.curr)
    × ((a.pc ≡ testing) ⊎ (a.pc ≡ checking worker))

module _ (T : SequenceTable) ⦃c : Comparable String⦄ (convert : Conversion) where
  abbrev moved : T.State → Agent → Agent
  moved s a = record a {
    sequence = (advance convert T s a.stopped a.sequence a.pc).1;
    pc = (advance convert T s a.stopped a.sequence a.pc).2;
  }

  spin_pc :
      (s : T.State) (q : Sequence) (stopped : Bool) (pc : Pc)
      → stopped ≡ true
      → q.max ≤ q.curr
      → (pc ≡ testing) ⊎ (pc ≡ checking worker)
      → ((advance convert T s stopped q pc).1.max ≤ (advance convert T s stopped q pc).1.curr)
        × (((advance convert T s stopped q pc).2 ≡ testing)
            ⊎ ((advance convert T s stopped q pc).2 ≡ checking worker))
  unfolding advance
  spin_pc s q stopped pc st used (inl e) =
      let full : leb q.max q.curr ≡ true = ground arith in rw (e, full) (used, inr refl)
  spin_pc s q stopped pc st used (inr e) = rw (e, st) (used, inl refl)

  IsSpinning-kept : (s : T.State) (a : Agent) → IsSpinning a → IsSpinning (moved s a)
  IsSpinning-kept s a h =
      let kept = spin_pc s a.sequence a.stopped a.pc h.0 h.1 h.2 in (h.0, kept.0, kept.1)

  offers_not : (a : Agent) (n : ℕ) → IsSpinning a → a.pc ≡ offering n → ⊥
  offers_not a n h e = elim h.2 [ inl p ↦ cc | inr p ↦ cc ]

  put-IsSpinning :
      (u : System T) (i j : ℕ) (a : Agent)
      → IsSpinning (u.agents i)
      → (j ≡ i → IsSpinning a)
      → IsSpinning (put u.agents j a i)
  put-IsSpinning u i j a h new = elim (Bool-cases (j == i)) [
    | inl e ↦ rw e (new ((==_iff j i).0 e))
    | inr e ↦ rw e h
  ]

  step-IsSpinning :
      (u v : System T) (i : ℕ)
      → IsSpinning (u.agents i)
      → Step T convert u v
      → IsSpinning (v.agents i)
  step-IsSpinning u v i h (run j e) = rw e (
      put-IsSpinning u i j (moved u.table (u.agents j)) h
        (λ same. IsSpinning-kept u.table (u.agents j) (rw same h)))
  step-IsSpinning u v i h (receive j n p e) =
      rw e (put-IsSpinning u i j _ h (λ same. absurd (offers_not (u.agents j) n (rw same h) p)))
  step-IsSpinning u v i h (halt j n p stop e) =
      rw e (put-IsSpinning u i j _ h (λ same. absurd (offers_not (u.agents j) n (rw same h) p)))
  step-IsSpinning u v i h (close j started e) = rw e (
      put-IsSpinning u i j (record (u.agents j) { stopped = true }) h
        (λ same. let own : IsSpinning (u.agents j) = rw same h in (refl, own.1, own.2)))

  -- A generator that is closed while its numbers are used up, and that is at the test of its
  -- worker's loop or in the renewal that the loop calls, stays so whatever steps of any
  -- generators follow, and its worker has not ended.
  pub IsSpinning-forever :
      (u v : System T) (i : ℕ)
      → IsSpinning (u.agents i)
      → Reach T convert u v
      → IsSpinning (v.agents i) × ((v.agents i).pc ≢ ended)
  IsSpinning-forever u v i h r =
      let still = reach r in (still, λ e. elim still.2 [ inl p ↦ cc | inr p ↦ cc ])
    where
      reach : {w : System T} → Reach T convert u w → IsSpinning (w.agents i)
      reach here = h
      reach (later r' st) = step-IsSpinning _ _ i (reach r') st

  -- Two steps of a generator that nothing disturbs.
  abbrev pub two_steps : T.State → Sequence → Pc → T.State × Sequence × Pc
  two_steps s q pc =
      let (s', q', pc') = advance convert T s false q pc in advance convert T s' false q' pc'

  pub take_step :
      (id : ℕ) (caller : Caller) (s : T.State) (q : Sequence) (row : Row)
      → q.row_id ≡ id
      → (T.take s id).1 ≡ inr row
      → advance convert T s false q (checking caller) ≡ ((T.take s id).0, q, updating caller row)
  unfolding advance after_take
  take_step id caller s q row e read =
      ap (λ k. after_take convert T caller q (T.take s k)) e
      ∙ ap (λ r. after_take convert T caller q ((T.take s id).0, r)) read

  pub update_step :
      (caller : Caller) (s : T.State) (q : Sequence) (row : Row)
      → (T.update s row ((row.sequence + q.step) % 2 ^ 64)).affected ≡ inr 1
      → let u = T.update s row ((row.sequence + q.step) % 2 ^ 64) in
        advance convert T s false q (updating caller row)
        ≡ (u.state, renewed convert (grant q u.held), return_to caller (grant q u.held).curr)
  unfolding advance after_update
  update_step caller s q row made = rw made

  -- A renewal whose read and update are both answered, with no other update between them, takes over
  -- exactly the block of `step` numbers that begins at the row's number, and moves the row to its end.
  pub renewal_block :
      (id : ℕ) (o : IsOptimistic T id) (caller : Caller) (s : T.State) (q : Sequence) (row : Row)
      → IsFixed id q
      → (T.take s id).1 ≡ inr row
      → (T.update (T.take s id).0 row ((row.sequence + q.step) % 2 ^ 64)).affected ≡ inr 1
      → ((two_steps s q (checking caller)).1.curr ≡ o.sequence_of s)
        × ((two_steps s q (checking caller)).1.max ≡ o.sequence_of s + q.step)
        × (o.sequence_of (two_steps s q (checking caller)).0 ≡ o.sequence_of s + q.step)
        × ((two_steps s q (checking caller)).2 ≡ return_to caller (o.sequence_of s))
  unfolding renewed grant
  renewal_block id o caller s q row f read made =
      let s' : T.State = (T.take s id).0 in
      let value : ℕ = (row.sequence + q.step) % 2 ^ 64 in
      let u : Updated T.State = T.update s' row value in
      let shown = o.take_row s row read in
      let exact : value ≡ o.sequence_of s + q.step = omega (arith, f, shown.1, o.column s) in
      let held : u.held.sequence ≡ o.sequence_of s + q.step =
        o.update_held s' row value made ∙ exact in
      let curr : (u.held.sequence + 2 ^ 64 - q.step) % 2 ^ 64 ≡ o.sequence_of s =
        omega (arith, f, held, o.column s) in
      let moved : o.sequence_of u.state ≡ o.sequence_of s + q.step =
        elim (o.update_outcome s' row value shown.0) [
          | inl lost ↦ absurd (lost.reported made)
          | inr written ↦ written.sequence ∙ exact
        ] in
      rw (take_step id caller s q row f.row read, update_step caller s' q row made)
        (curr, held, moved, ap (return_to caller) curr)
