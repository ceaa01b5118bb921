-- ===== src/Tddl/Ends.antt =====
-- `renew` of pkg/tddl/tddl.go ends: how many rounds of its loop other processes can cost it.
use mathlib.Core.Path.{subst}
use Prim.Native.String.{String}
use turl.Base.{
  ℕ, suc, ◌+◌, ◌-◌, ◌*◌, ◌%◌, ◌^◌, ◌≤◌, ◌<◌, ◌≡◌, ◌≢◌, ◌⊎◌, inl, inr, refl, sym, ◌∙◌, false, ◌==◌,
  ==_iff, Bool-cases, arith, Option, none, some, List, [], ◌∷◌, length, All,
}
use turl.Errors.{Error}
use turl.RateLimit.{Comparable}
use turl.RateLimit.Exponential.{Conversion}
use turl.Tddl.{
  Row, SequenceTable, Sequence, Pc, Caller, checking, updating, testing, offering, ended, worker,
  constructor, advance, after_update, renewed, retry_later, grant, return_to, is_one,
}
use turl.Tddl.Table.{IsOptimistic, IsLost}
use turl.Tddl.Known.{IsFixed, is_one-true}
use turl.Tddl.Progress.{take_step, update_step}

-- The database answers: a read finds the row, and an update of the row as it is now is made and
-- reported, where the column can hold the new value.
pub record IsResponsive (T : SequenceTable) (id : ℕ) (o : IsOptimistic T id) : Type 0 where
  pub reads : (s : T.State) → (row : Row) × ((T.take s id).1 ≡ inr row)
  pub updates :
      (s : T.State) (row : Row) (value : ℕ)
      → row.id ≡ id
      → row.version ≡ o.version_of s
      → value < 2 ^ 63
      → (T.update s row value).affected ≡ inr 1

module _ (T : SequenceTable) where
  -- What other processes do to the table before a step: nothing, or anything.
  abbrev pub Others : Type 0
  Others = Option (T.State → T.State)

  abbrev pub meanwhile : Others → T.State → T.State
  meanwhile none s = s
  meanwhile (some f) s = f s

  abbrev pub interruptions : List Others → ℕ
  interruptions [] = 0
  interruptions (none ∷ os) = interruptions os
  interruptions (some f ∷ os) = suc (interruptions os)

  interruptions-tail : (a : Others) (os : List Others) → interruptions os ≤ interruptions (a ∷ os)
  interruptions-tail none os = omega arith
  interruptions-tail (some f) os = omega arith

module _ (T : SequenceTable) ⦃c : Comparable String⦄ (convert : Conversion) where
  -- The loop of `renew`, one step for each entry of the list, until it returns to its caller.
  unfoldable pub renew_steps : List (Others T) → T.State → Sequence → Pc → T.State × Sequence × Pc
  renew_steps [] s q pc = (s, q, pc)
  renew_steps (o ∷ os) s q (checking caller) =
      let (s', q', pc') = advance convert T (meanwhile T o s) false q (checking caller) in
      renew_steps os s' q' pc'
  renew_steps (o ∷ os) s q (updating caller row) =
      let (s', q', pc') = advance convert T (meanwhile T o s) false q (updating caller row) in
      renew_steps os s' q' pc'
  renew_steps (o ∷ os) s q testing = (s, q, testing)
  renew_steps (o ∷ os) s q (offering n) = (s, q, offering n)
  renew_steps (o ∷ os) s q ended = (s, q, ended)

  abbrev pub renew_from : List (Others T) → T.State × Sequence × Pc → T.State × Sequence × Pc
  renew_from os (s, q, pc) = renew_steps os s q pc

  -- `renew` has returned to its caller, with a whole block of numbers.
  abbrev pub HasBlock : Caller → ℕ → T.State × Sequence × Pc → Type 0
  HasBlock caller step end = (end.2 ≡ return_to caller end.1.curr) × (end.1.max ≡ end.1.curr + step)

  returned :
      (os : List (Others T)) (caller : Caller) (s : T.State) (q : Sequence)
      → renew_steps os s q (return_to caller q.curr) ≡ (s, q, return_to caller q.curr)
  unfolding renew_steps
  returned [] caller s q = refl
  returned (o ∷ os) constructor s q = refl
  returned (o ∷ os) worker s q = refl

  lost_step :
      (caller : Caller) (s : T.State) (q : Sequence) (row : Row)
      → is_one (T.update s row ((row.sequence + q.step) % 2 ^ 64)).affected ≡ false
      → advance convert T s false q (updating caller row) ≡ (
        (T.update s row ((row.sequence + q.step) % 2 ^ 64)).state,
        retry_later convert q,
        checking caller,
      )
  unfolding advance after_update
  lost_step caller s q row lost = rw lost refl

  module _ (id : ℕ) (o : IsOptimistic T id) (r : IsResponsive T id o) where
    abbrev proposed : Sequence → Row → ℕ
    proposed q row = (row.sequence + q.step) % 2 ^ 64

    -- The column has room for one more block.
    abbrev pub HasRoom : ℕ → T.State → Type 0
    HasRoom step s = o.sequence_of s + step < 2 ^ 63

    -- What the other processes do leaves room for one more block.
    abbrev pub LeavesRoom : ℕ → Others T → Type 0
    LeavesRoom step none = Unit
    LeavesRoom step (some f) = (s : T.State) → HasRoom step (f s)

    meanwhile-HasRoom :
        (step : ℕ) (a : Others T) (s : T.State)
        → HasRoom step s
        → LeavesRoom step a
        → HasRoom step (meanwhile T a s)
    meanwhile-HasRoom step none s room leaves = room
    meanwhile-HasRoom step (some f) s room leaves = leaves s

    -- The row that the generator holds is one that the database showed, with room above its number.
    record IsHeld (step : ℕ) (shown : Row) : Type 0 where
      row : shown.id ≡ id
      room : shown.sequence + step < 2 ^ 63

    -- An update of the row as it is now is made, and ends the loop with a whole block.
    current_block :
        (caller : Caller) (s : T.State) (q : Sequence) (row : Row) (os : List (Others T))
        → IsFixed id q
        → IsHeld q.step row
        → row.version ≡ o.version_of s
        → HasBlock caller q.step (renew_from os (advance convert T s false q (updating caller row)))
    unfolding renewed grant
    current_block caller s q row os f held current =
        let small : proposed q row < 2 ^ 63 = omega (arith, held) in
        let made = r.updates s row (proposed q row) held.row current small in
        let value = o.update_held s row (proposed q row) made in
        let u = T.update s row (proposed q row) in
        let whole : u.held.sequence ≡ (u.held.sequence + 2 ^ 64 - q.step) % 2 ^ 64 + q.step =
          omega (arith, f, value, small, held) in
        rw
          (
            update_step T convert caller s q row made,
            returned os caller u.state (renewed convert (grant q u.held)),
          )
          (refl, whole)

    -- An update of a row that has changed since it was read is lost: the loop goes round again.
    stale_update :
        (s : T.State) (q : Sequence) (row : Row)
        → row.id ≡ id
        → row.version ≢ o.version_of s
        → IsLost T o.sequence_of o.version_of s (T.update s row (proposed q row))
    stale_update s q row same stale = elim (o.update_outcome s row (proposed q row) same) [
      | inl lost ↦ lost
      | inr made ↦ absurd (stale made.current)
    ]

    not_one : (a : Error ⊎ ℕ) → a ≢ inr 1 → is_one a ≡ false
    not_one a h = elim (Bool-cases (is_one a)) [ inl e ↦ absurd (h (is_one-true a e)) | inr e ↦ e ]

    -- A version that has moved since it was read is the work of another process.
    stale-interrupted :
        (b : Others T) (os : List (Others T)) (s : T.State) (version : ℕ)
        → version ≡ o.version_of s
        → version ≢ o.version_of (meanwhile T b s)
        → interruptions T (b ∷ os) ≡ suc (interruptions T os)
    stale-interrupted none os s version read stale = absurd (stale read)
    stale-interrupted (some g) os s version read stale = refl

    -- `renew`, called with the service open and with room in the column, returns to its caller with
    -- exactly one whole block of `step` numbers after at most two steps for each time that other
    -- processes touch the table, and two more, where the database answers.
    pub renew-ends :
        (os : List (Others T)) (caller : Caller) (s : T.State) (q : Sequence)
        → IsFixed id q
        → HasRoom q.step s
        → All (LeavesRoom q.step) os
        → 2 * suc (interruptions T os) ≤ length os
        → HasBlock caller q.step (renew_steps os s q (checking caller))
    unfolding renew_steps retry_later
    renew-ends [] caller s q f room leaves h = absurd (omega arith)
    renew-ends (a ∷ []) caller s q f room leaves h = absurd (omega arith)
    renew-ends (a ∷ b ∷ os) caller s q f room (ra, (rb, rest)) h =
        let s1 : T.State = meanwhile T a s in
        let reply = r.reads s1 in
        let shown = o.take_row s1 reply.0 reply.1 in
        let s2 : T.State = (T.take s1 id).0 in
        let s3 : T.State = meanwhile T b s2 in
        let room1 : HasRoom q.step s1 = meanwhile-HasRoom q.step a s room ra in
        let room2 : HasRoom q.step s2 = omega (arith, room1, o.take_sequence s1) in
        let held : IsHeld q.step reply.0 = record {
          row = shown.0;
          room = omega (arith, shown.1, room1);
        } in
        subst (λ e. HasBlock caller q.step (renew_from (b ∷ os) e))
          (sym (take_step T convert id caller s1 q reply.0 f.row reply.1))
          (elim (Bool-cases (reply.0.version == o.version_of s3)) [
            | inl e ↦ current_block caller s3 q reply.0 os f held ((==_iff _ _).0 e)
            | inr e ↦
                let stale : reply.0.version ≢ o.version_of s3 = λ same.
                  let met = (==_iff reply.0.version (o.version_of s3)).1 same in absurd cc in
                let lost = stale_update s3 q reply.0 shown.0 stale in
                let s4 : T.State = (T.update s3 reply.0 (proposed q reply.0)).state in
                let fewer : 2 * suc (interruptions T os) ≤ length os =
                  let own =
                    stale-interrupted b os s2 reply.0.version (shown.2 ∙ sym (o.take_version s1))
                      stale in
                  omega (arith, h, own, interruptions-tail T a (b ∷ os)) in
                subst (λ e. HasBlock caller q.step (renew_from os e))
                  (sym (lost_step caller s3 q reply.0 (not_one _ lost.reported)))
                  (renew-ends os caller s4 (retry_later convert q)
                    (record { row = f.row; step_pos = f.step_pos; step_fits = f.step_fits })
                    (omega (arith, lost.sequence, meanwhile-HasRoom q.step b s2 room2 rb)) rest
                    fewer)
          ])
