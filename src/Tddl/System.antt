-- ===== src/Tddl/System.antt =====
-- Generators of any number of processes that share one table: the steps of pkg/tddl/tddl.go,
-- interleaved in any order.
use turl.Base.{ℕ, ◌^◌, ◌≤◌, ◌<◌, ◌≡◌, ◌≢◌, true, false, List, [], ◌∷◌, ◌==◌, if◌then◌else◌, All}
use turl.RateLimit.{Comparable}
use turl.RateLimit.Exponential.{Conversion}
use Prim.Native.String.{String}
use turl.Tddl.{
  SequenceTable, Sequence, Agent, Pc, checking, updating, testing, offering, ended, constructor,
  advance, take_next,
}

-- The table, the generators by number, and the numbers handed out so far, the last one first.
pub record System (T : SequenceTable) : Type 0 where
  pub table : T.State
  pub agents : ℕ → Agent
  pub issued : List ℕ

abbrev pub put : (ℕ → Agent) → ℕ → Agent → ℕ → Agent
put f i a j = if i == j then a else f j

-- `stop` can be closed once `newSequence` has returned the generator.
abbrev pub IsStarted : Pc → Type 0
IsStarted (checking constructor) = ⊥
IsStarted (updating constructor row) = ⊥
IsStarted _ = Unit

module _ (T : SequenceTable) ⦃c : Comparable String⦄ (convert : Conversion) where
  abbrev pub advanced : T.State → Agent → T.State × Sequence × Pc
  advanced s a = advance convert T s a.stopped a.sequence a.pc

  -- One step of one generator. The steps of `worker` at its `select` are the two channel operations.
  pub data Step (u v : System T) : Type 0 where
    run :
        (i : ℕ)
        → v ≡ record u {
          table = (advanced u.table (u.agents i)).0;
          agents = put u.agents i (record (u.agents i) {
            sequence = (advanced u.table (u.agents i)).1;
            pc = (advanced u.table (u.agents i)).2;
          });
        }
        → Step u v
    receive :
        (i n : ℕ)
        → (u.agents i).pc ≡ offering n
        → v ≡ record u {
          agents =
              put u.agents i
                (record (u.agents i) { sequence = take_next (u.agents i).sequence; pc = testing });
          issued = n ∷ u.issued;
        }
        → Step u v
    halt :
        (i n : ℕ)
        → (u.agents i).pc ≡ offering n
        → (u.agents i).stopped ≡ true
        → v ≡ record u { agents = put u.agents i (record (u.agents i) { pc = ended }) }
        → Step u v
    close :
        (i : ℕ)
        → IsStarted (u.agents i).pc
        → v ≡ record u { agents = put u.agents i (record (u.agents i) { stopped = true }) }
        → Step u v

  pub data Reach (u : System T) : System T → Type 0 where
    here : Reach u u
    later : {v w : System T} → Reach u v → Step v w → Reach u w

-- A list without repetition.
abbrev pub Distinct : List ℕ → Type 0
Distinct [] = Unit
Distinct (n ∷ ns) = All (λ m. m ≢ n) ns × Distinct ns

-- A generator that `newSequence` has just set up: it has a row and a step, and no numbers yet.
pub record IsNew (id : ℕ) (a : Agent) : Type 0 where
  pub row : a.sequence.row_id ≡ id
  pub step_pos : 1 ≤ a.sequence.step
  pub step_fits : a.sequence.step < 2 ^ 63
  pub max : a.sequence.max ≡ 0
  pub pc : a.pc ≡ checking constructor
  pub stopped : a.stopped ≡ false

-- Every generator is new, over one row, and no number has been handed out.
pub record IsInitial (T : SequenceTable) (id : ℕ) (u : System T) : Type 0 where
  pub new : (i : ℕ) → IsNew id (u.agents i)
  pub issued : u.issued ≡ []
