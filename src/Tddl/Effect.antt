-- ===== src/Tddl/Effect.antt =====
-- What one step of a generator does to the shared row and to the generator's own range.
use turl.Base.{
  ℕ, ◌+◌, ◌-◌, ◌%◌, ◌^◌, ◌<◌, ◌≡◌, ◌⊎◌, inl, inr, refl, sym, ◌∙◌, Bool, true, false, leb, arith,
  Bool-cases,
}
use turl.Errors.{Error}
use turl.RateLimit.{Comparable}
use turl.RateLimit.Exponential.{Conversion}
use Prim.Native.String.{String}
use turl.Tddl.{
  Row, Updated, SequenceTable, Sequence, Pc, Caller, checking, updating, testing, offering, ended,
  constructor, worker, advance, after_take, after_update, retry_later, renewed, grant, is_one,
  return_to,
}
use turl.Tddl.Table.{IsMade, IsOptimistic}
use turl.Tddl.Known.{
  IsRead, AtPc, IsForward, IsEffect, IsForward-refl, IsForward-take, IsFixed, is_one-true,
}

module _ (T : SequenceTable) (id : ℕ) (o : IsOptimistic T id) where
  open o use {sequence_of, version_of}

  -- Whatever the reply, a read leaves the range alone.
  take-IsEffect :
      (s : T.State) (q : Sequence) (stopped : Bool) (q' : Sequence) (pc' : Pc)
      → IsFixed id q'
      → (q'.curr ≡ q.curr) × (q'.max ≡ q.max)
      → AtPc T id o (T.take s id).0 q' stopped pc'
      → IsEffect T id o s q stopped (T.take s id).0 q' pc'
  take-IsEffect s q stopped q' pc' fixed same at = record {
    forward = IsForward-take T id o s;
    range = inl same;
    fixed = fixed;
    at_pc = at;
  }

  still-IsEffect :
      (s : T.State) (q : Sequence) (stopped : Bool) (q' : Sequence) (pc' : Pc)
      → IsFixed id q'
      → (q'.curr ≡ q.curr) × (q'.max ≡ q.max)
      → AtPc T id o s q' stopped pc'
      → IsEffect T id o s q stopped s q' pc'
  still-IsEffect s q stopped q' pc' fixed same at = record {
    forward = IsForward-refl T id o s;
    range = inl same;
    fixed = fixed;
    at_pc = at;
  }

  taken_IsRead :
      (s : T.State) (row : Row) → (T.take s id).1 ≡ inr row → IsRead T id o (T.take s id).0 row
  taken_IsRead s row e =
      let read = o.take_row s row e in
      record {
        row = read.0;
        version = omega (arith, read.2, o.take_version s);
        sequence = λ h. omega (arith, read.1, o.take_sequence s);
      }

  module _ ⦃c : Comparable String⦄ (convert : Conversion) where
    abbrev Ends : T.State → Sequence → Bool → T.State × Sequence × Pc → Type 0
    Ends s q stopped r = IsEffect T id o s q stopped r.0 r.1 r.2

    after_take_effect :
        (caller : Caller) (s : T.State) (q : Sequence) (stopped : Bool) (reply : Error ⊎ Row)
        → IsFixed id q
        → AtPc T id o (T.take s id).0 q stopped (checking caller)
        → (T.take s id).1 ≡ reply
        → Ends s q stopped (after_take convert T caller q ((T.take s id).0, reply))
    unfolding after_take retry_later
    after_take_effect constructor s q stopped (inl e) f at eq =
        take-IsEffect s q stopped _ _ (omega (arith, f)) (refl, refl) at
    after_take_effect constructor s q stopped (inr row) f at eq =
        take-IsEffect s q stopped _ _ f (refl, refl) (at, taken_IsRead s row eq)
    after_take_effect worker s q stopped (inl e) f at eq =
        take-IsEffect s q stopped _ _ (omega (arith, f)) (refl, refl) at
    after_take_effect worker s q stopped (inr row) f at eq =
        take-IsEffect s q stopped _ _ f (refl, refl) (taken_IsRead s row eq)

    after_take_at :
        (caller : Caller) (s : T.State) (q : Sequence) (stopped : Bool) (k : ℕ)
        → IsFixed id q
        → AtPc T id o (T.take s id).0 q stopped (checking caller)
        → k ≡ id
        → Ends s q stopped (after_take convert T caller q (T.take s k))
    after_take_at caller s q stopped k f at e =
        rw e (after_take_effect caller s q stopped (T.take s id).1 f at refl)

    checking_effect :
        (caller : Caller) (s : T.State) (q : Sequence) (stopped : Bool)
        → IsFixed id q
        → AtPc T id o s q stopped (checking caller)
        → Ends s q stopped (advance convert T s stopped q (checking caller))
    unfolding advance
    checking_effect constructor s q true f at = cc
    checking_effect constructor s q false f at =
        after_take_at constructor s q false q.row_id f refl f.row
    checking_effect worker s q true f at =
        still-IsEffect s q true _ _ (omega (arith, f)) (refl, refl) tt
    checking_effect worker s q false f at = after_take_at worker s q false q.row_id f tt f.row

    -- The row that a generator holds between its read and its write.
    held_IsRead :
        (caller : Caller) (s : T.State) (q : Sequence) (stopped : Bool) (row : Row)
        → AtPc T id o s q stopped (updating caller row)
        → IsRead T id o s row
    held_IsRead constructor s q stopped row at = at.1
    held_IsRead worker s q stopped row at = at

    retry_AtPc :
        (caller : Caller) (s s' : T.State) (q q' : Sequence) (stopped : Bool) (row : Row)
        → AtPc T id o s q stopped (updating caller row)
        → AtPc T id o s' q' stopped (checking caller)
    retry_AtPc constructor s s' q q' stopped row at = at.0
    retry_AtPc worker s s' q q' stopped row at = tt

    return_AtPc :
        (caller : Caller) (s : T.State) (q : Sequence) (stopped : Bool)
        → q.curr < q.max
        → AtPc T id o s q stopped (return_to caller q.curr)
    return_AtPc constructor s q stopped h = (refl, h)
    return_AtPc worker s q stopped h = tt

    -- An update that was not reported as made: the loop of `renew` goes round again.
    failed_effect :
        (caller : Caller) (s : T.State) (q : Sequence) (stopped : Bool) (row : Row)
        (u : Updated T.State)
        → IsFixed id q
        → AtPc T id o s q stopped (updating caller row)
        → IsForward T id o s u.state
        → is_one u.affected ≡ false
        → Ends s q stopped (after_update convert T caller q u)
    unfolding after_update retry_later
    failed_effect caller s q stopped row u f at forward e = rw e (record {
      forward = forward;
      range = inl (refl, refl);
      fixed = omega (arith, f);
      at_pc = retry_AtPc caller s u.state q (retry_later convert q) stopped row at;
    })

    made-IsForward :
        (s : T.State) (q : Sequence) (row : Row) (u : Updated T.State)
        → IsFixed id q
        → IsRead T id o s row
        → IsMade T sequence_of version_of s row ((row.sequence + q.step) % 2 ^ 64) u
        → (sequence_of u.state ≡ sequence_of s + q.step) × IsForward T id o s u.state
    made-IsForward s q row u f read made =
        let same = read.sequence made.current in
        let value : sequence_of u.state ≡ sequence_of s + q.step =
          omega (arith, made.sequence, same, o.column s) in
        (
          value,
          record { sequence = omega (arith, value); version = inr (omega (arith, made.version)) },
        )

    granted_effect :
        (caller : Caller) (s : T.State) (q : Sequence) (stopped : Bool) (u : Updated T.State)
        → IsFixed id q
        → IsForward T id o s u.state
        → sequence_of u.state ≡ sequence_of s + q.step
        → u.held.sequence ≡ sequence_of s + q.step
        → is_one u.affected ≡ true
        → Ends s q stopped (after_update convert T caller q u)
    unfolding after_update renewed grant
    granted_effect caller s q stopped u f forward value held e =
        let curr : (u.held.sequence + 2 ^ 64 - q.step) % 2 ^ 64 ≡ sequence_of s =
          omega (arith, held, o.column s) in
        rw e (record {
          forward = forward;
          range = inr (omega (arith, curr), omega (arith, held, value));
          fixed = omega (arith, f);
          at_pc =
              return_AtPc caller u.state (renewed convert (grant q u.held)) stopped
                (omega (arith, curr, held));
        })

    updating_effect :
        (caller : Caller) (s : T.State) (q : Sequence) (stopped : Bool) (row : Row)
        → IsFixed id q
        → AtPc T id o s q stopped (updating caller row)
        → Ends s q stopped
            (after_update convert T caller q (T.update s row ((row.sequence + q.step) % 2 ^ 64)))
    updating_effect caller s q stopped row f at =
        let value : ℕ = (row.sequence + q.step) % 2 ^ 64 in
        let u : Updated T.State = T.update s row value in
        let read = held_IsRead caller s q stopped row at in
        elim (Bool-cases (is_one u.affected)) [
          | inl e ↦ elim (o.update_outcome s row value read.row) [
            | inl lost ↦ absurd (lost.reported (is_one-true u.affected e))
            | inr made ↦
                let step = made-IsForward s q row u f read made in
                granted_effect caller s q stopped u f step.1 step.0
                  (o.update_held s row value (is_one-true u.affected e)
                    ∙ (sym made.sequence ∙ step.0))
                  e
          ]
          | inr e ↦ elim (o.update_outcome s row value read.row) [
            | inl lost ↦
                failed_effect caller s q stopped row u f at
                  (record {
                    sequence = omega (arith, lost.sequence);
                    version = inl (lost.version, lost.sequence);
                  })
                  e
            | inr made ↦
                failed_effect caller s q stopped row u f at (made-IsForward s q row u f read made).1
                  e
          ]
        ]

    testing_effect :
        (s : T.State) (q : Sequence) (stopped : Bool)
        → IsFixed id q
        → Ends s q stopped (advance convert T s stopped q testing)
    unfolding advance
    testing_effect s q stopped f = elim (Bool-cases (leb q.max q.curr)) [
      | inl e ↦ rw e (still-IsEffect s q stopped q (checking worker) f (refl, refl) tt)
      | inr e ↦
          rw e (still-IsEffect s q stopped q (offering q.curr) f (refl, refl) (refl, ground arith))
    ]

    -- Every step of a generator keeps what holds at its place, and its range comes from the row.
    pub advance-IsEffect :
        (s : T.State) (q : Sequence) (stopped : Bool) (pc : Pc)
        → IsFixed id q
        → AtPc T id o s q stopped pc
        → Ends s q stopped (advance convert T s stopped q pc)
    advance-IsEffect s q stopped (checking caller) f at = checking_effect caller s q stopped f at
    advance-IsEffect s q stopped (updating caller row) f at =
        unfold advance in updating_effect caller s q stopped row f at
    advance-IsEffect s q stopped testing f at = testing_effect s q stopped f
    advance-IsEffect s q stopped (offering n) f at =
        unfold advance in still-IsEffect s q stopped q (offering n) f (refl, refl) at
    advance-IsEffect s q stopped ended f at =
        unfold advance in still-IsEffect s q stopped q ended f (refl, refl) tt
