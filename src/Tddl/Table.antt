-- ===== src/Tddl/Table.antt =====
-- What the generator relies on in the table of sequences, for one row of it: reads show the row and
-- change nothing, and an update of the column `sequence` is made only where the version that was
-- read is still the row's, which it then raises.
use turl.Base.{ℕ, suc, ◌^◌, ◌<◌, ◌≡◌, ◌≢◌, ◌⊎◌, inr}
use turl.Tddl.{Row, Updated, SequenceTable}

-- The update was not made, and no row is reported as changed.
pub record IsLost (T : SequenceTable) (sequence_of version_of : T.State → ℕ) (s : T.State)
    (u : Updated T.State) : Type 0 where
  pub sequence : sequence_of u.state ≡ sequence_of s
  pub version : version_of u.state ≡ version_of s
  pub reported : u.affected ≢ inr 1

-- The update was made. An error that hides it, such as a lost reply, is possible.
pub record IsMade (T : SequenceTable) (sequence_of version_of : T.State → ℕ) (s : T.State)
    (row : Row) (value : ℕ) (u : Updated T.State) : Type 0 where
  pub current : row.version ≡ version_of s
  pub sequence : sequence_of u.state ≡ value
  pub version : version_of u.state ≡ suc (version_of s)

pub record IsOptimistic (T : SequenceTable) (id : ℕ) : Type 1 where
  -- The number and the version that the row holds.
  pub sequence_of : T.State → ℕ
  pub version_of : T.State → ℕ
  -- The column is a signed bigint, and its numbers are not negative.
  pub column : (s : T.State) → sequence_of s < 2 ^ 63
  pub take_sequence : (s : T.State) → sequence_of (T.take s id).0 ≡ sequence_of s
  pub take_version : (s : T.State) → version_of (T.take s id).0 ≡ version_of s
  pub take_row :
      (s : T.State) (row : Row)
      → (T.take s id).1 ≡ inr row
      → (row.id ≡ id) × (row.sequence ≡ sequence_of s) × (row.version ≡ version_of s)
  pub update_outcome :
      (s : T.State) (row : Row) (value : ℕ)
      → row.id ≡ id
      → IsLost T sequence_of version_of s (T.update s row value)
        ⊎ IsMade T sequence_of version_of s row value (T.update s row value)
  -- gorm stores the new value in the row value that it was given.
  pub update_held :
      (s : T.State) (row : Row) (value : ℕ)
      → (T.update s row value).affected ≡ inr 1
      → (T.update s row value).held.sequence ≡ value
