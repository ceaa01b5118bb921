-- ===== src/Tddl/Known.antt =====
-- What is known of a generator and of the shared row: at each place of the generator's code, and from one
-- step to the next.
use turl.Base.{ℕ, ◌^◌, ◌≤◌, ◌<◌, ◌≡◌, ◌⊎◌, inl, inr, refl, Bool, true, false, arith}
use turl.Errors.{Error}
use turl.Tddl.{
  Row, SequenceTable, Sequence, Pc, checking, updating, testing, offering, ended, constructor,
  worker, is_one,
}
use turl.Tddl.Table.{IsOptimistic}

-- What is fixed about a generator over the row `id`.
pub record IsFixed (id : ℕ) (q : Sequence) : Type 0 where
  pub row : q.row_id ≡ id
  pub step_pos : 1 ≤ q.step
  pub step_fits : q.step < 2 ^ 63

pub is_one-true : (r : Error ⊎ ℕ) → is_one r ≡ true → r ≡ inr 1
is_one-true r e = ground arith

module _ (T : SequenceTable) (id : ℕ) (o : IsOptimistic T id) where
  open o use {sequence_of, version_of}

  -- A row that was read is the row as it is now, unless the version has moved on.
  pub record IsRead (s : T.State) (r : Row) : Type 0 where
    pub row : r.id ≡ id
    pub version : r.version ≤ version_of s
    pub sequence : r.version ≡ version_of s → r.sequence ≡ sequence_of s

  -- What holds of a generator at its place in the code.
  abbrev pub AtPc : T.State → Sequence → Bool → Pc → Type 0
  AtPc s q stopped (checking constructor) = stopped ≡ false
  AtPc s q stopped (checking worker) = Unit
  AtPc s q stopped (updating constructor row) = (stopped ≡ false) × IsRead s row
  AtPc s q stopped (updating worker row) = IsRead s row
  AtPc s q stopped testing = Unit
  AtPc s q stopped (offering n) = (n ≡ q.curr) × (n < q.max)
  AtPc s q stopped ended = Unit

  -- The shared row stays, or its version rises and its number does not fall.
  pub record IsForward (s s' : T.State) : Type 0 where
    pub sequence : sequence_of s ≤ sequence_of s'
    pub version :
        ((version_of s' ≡ version_of s) × (sequence_of s' ≡ sequence_of s))
        ⊎ (version_of s < version_of s')

  -- The numbers of the generator are those it had, or come from above the row's old number and lie
  -- below its new one.
  abbrev pub Range : T.State → Sequence → T.State → Sequence → Type 0
  Range s q s' q' =
      ((q'.curr ≡ q.curr) × (q'.max ≡ q.max))
      ⊎ ((sequence_of s ≤ q'.curr) × (q'.max ≤ sequence_of s'))

  pub record IsEffect (s : T.State) (q : Sequence) (stopped : Bool) (s' : T.State) (q' : Sequence)
      (pc' : Pc) : Type 0 where
    pub forward : IsForward s s'
    pub range : Range s q s' q'
    pub fixed : IsFixed id q'
    pub at_pc : AtPc s' q' stopped pc'

  pub IsForward-refl : (s : T.State) → IsForward s s
  IsForward-refl s = record { sequence = omega arith; version = inl (refl, refl) }

  pub IsForward-take : (s : T.State) → IsForward s (T.take s id).0
  IsForward-take s = record {
    sequence = omega (arith, o.take_sequence s);
    version = inl (o.take_version s, o.take_sequence s);
  }
