-- ===== src/Tests/Generators.antt =====
-- A table of one sequence, which checks the version of an update and refuses numbers that a signed bigint
-- does not hold, and a generator on it.
use turl.Base.{
  ℕ, suc, ◌%◌, ◌^◌, ◌<◌, ◌≡◌, ◌≢◌, ◌⊎◌, inl, inr, refl, sym, ap, true, false, Bool-cases, [], ◌∷◌,
  All, ltb, ◌==◌, ==_iff, if◌then◌else◌, arith,
}
use turl.Base.Int.{pos}
use Prim.Native.String.{String}
use text.Mathlib.Text
use text.Mathlib.TextEquality.{eq_iff}
use turl.Errors.{Error}
use turl.RateLimit.{Comparable}
use turl.RateLimit.Exponential.{Conversion, new_exponential}
use turl.Tddl.{
  Row, Updated, SequenceTable, Sequence, checking, testing, ended, constructor, worker, advance,
  take_next, return_to, after_take, after_update, renewed, retry_later, grant,
}
use turl.Tddl.Table.{IsOptimistic, IsLost, IsMade}
use turl.Tddl.System.{
  System, advanced, put, Distinct, IsInitial, run, receive, close, Reach, here, later,
}
use turl.Tddl.Unique.{Reach-Distinct}
use turl.Tddl.ShortUrls.{DistinctTexts, Reach-DistinctTexts}
use turl.Tddl.Progress.{IsSpinning, two_steps, IsSpinning-forever, renewal_block}

-- The number and the version of the one row.
abbrev pub Cell : Type 0
Cell = ℕ × ℕ

abbrev pub shown : Cell → Row
shown s = record { id = 1; sequence = s.0 % 2 ^ 63; version = s.1 }

unfoldable pub updated : Cell → Row → ℕ → Updated Cell
updated s row v =
    let made : Updated Cell = record {
      state = (v, suc s.1);
      affected = inr 1;
      held = record row { sequence = v };
    } in
    let lost : Updated Cell = record { state = s; affected = inr 0; held = row } in
    if row.version == s.1 then (if ltb v (2 ^ 63) then made else lost) else lost

abbrev pub table : SequenceTable
table = record {
  State = Cell;
  take_named = λ s name. (s, inr (shown s));
  take = λ s id. (s, inr (shown s));
  create = λ s name start. ((start, 0), inr (shown (start, 0)));
  update = updated;
}

none_changed : ◌≡◌ {A = Error ⊎ ℕ} (inr 0) (inr 1) → ⊥
none_changed e = cc

pub update_cases :
    (s : Cell) (row : Row) (v : ℕ)
    → IsLost table (λ s. s.0 % 2 ^ 63) (λ s. s.1) s (updated s row v)
      ⊎ IsMade table (λ s. s.0 % 2 ^ 63) (λ s. s.1) s row v (updated s row v)
unfolding updated
update_cases s row v = elim (Bool-cases (row.version == s.1)) [
  | inl current ↦ elim (Bool-cases (ltb v (2 ^ 63))) [
    | inl small ↦
        rw (current, small)
          (inr (record {
            current = (==_iff row.version s.1).0 current;
            sequence = ground arith;
            version = refl;
          }))
    | inr large ↦
        rw (current, large)
          (inl (record { sequence = refl; version = refl; reported = λ e. none_changed e }))
  ]
  | inr stale ↦
      rw stale (inl (record { sequence = refl; version = refl; reported = λ e. none_changed e }))
]

pub update_holds :
    (s : Cell) (row : Row) (v : ℕ)
    → (updated s row v).affected ≡ inr 1
    → (updated s row v).held.sequence ≡ v
unfolding updated
update_holds s row v e = elim (Bool-cases (row.version == s.1)) [
  | inl current ↦ elim (Bool-cases (ltb v (2 ^ 63))) [
    | inl small ↦ rw (current, small) refl
    | inr large ↦ absurd (none_changed (rw (current, large) at e))
  ]
  | inr stale ↦ absurd (none_changed (rw stale at e))
]

unfoldable pub optimistic : IsOptimistic table 1
optimistic = record {
  sequence_of = λ s. s.0 % 2 ^ 63;
  version_of = λ s. s.1;
  column = λ s. omega arith;
  take_sequence = λ s. refl;
  take_version = λ s. refl;
  take_row = λ s row e.
      let same : shown s ≡ row = cc in
      (sym (ap (λ r. r.id) same), sym (ap (λ r. r.sequence) same), sym (ap (λ r. r.version) same));
  update_outcome = λ s row v e. update_cases s row v;
  update_held = update_holds;
}

instance pub client : Comparable String
client = record { same = λ a b. Text.◌==◌ a b; same_iff = eq_iff }

abbrev pub to_zero : Conversion
to_zero x = pos 0

abbrev pub fresh : Sequence
fresh = record {
  client_id = "client";
  row_id = 1;
  step = 1000;
  max = 0;
  curr = 0;
  rate_limiter = new_exponential 10000000 60000000000;
}

abbrev begun : System table
begun = record {
  table = (700000000, 0);
  agents = λ i. record { sequence = fresh; pc = checking constructor; stopped = false };
  issued = [];
}

begun-IsInitial : IsInitial table 1 begun
begun-IsInitial = record {
  new = λ i. record {
    row = refl;
    step_pos = omega arith;
    step_fits = omega arith;
    max = refl;
    pc = refl;
    stopped = refl;
  };
  issued = refl;
}

-- A generator takes a step by itself, or its worker hands out the number that it offers.
abbrev ran : ℕ → System table → System table
ran i u = record u {
  table = (advanced table to_zero u.table (u.agents i)).0;
  agents = put u.agents i (record (u.agents i) {
    sequence = (advanced table to_zero u.table (u.agents i)).1;
    pc = (advanced table to_zero u.table (u.agents i)).2;
  });
}

abbrev gave : ℕ → ℕ → System table → System table
gave i n u = record u {
  agents =
      put u.agents i
        (record (u.agents i) { sequence = take_next (u.agents i).sequence; pc = testing });
  issued = n ∷ u.issued;
}

-- Two generators renew in turn, the second between two numbers of the first.
abbrev first_renewed : System table
first_renewed = ran 0 (ran 0 begun)

abbrev both_renewed : System table
both_renewed = ran 1 (ran 1 (ran 0 (gave 0 700000000 first_renewed)))

abbrev three_given : System table
three_given = gave 1 700001000 (gave 0 700000001 both_renewed)

three_given-Reach : Reach table to_zero begun three_given
unfolding advance after_take after_update renewed retry_later grant take_next updated
three_given-Reach =
    later
      (later
        (later
          (later
            (later
              (later (later (later here (run 0 refl)) (run 0 refl)) (receive 0 700000000 refl refl))
              (run 0 refl))
            (run 1 refl))
          (run 1 refl))
        (receive 0 700000001 refl refl))
      (receive 1 700001000 refl refl)

Reach-Distinct_example :
    Distinct three_given.issued
    × All (λ n. n < optimistic.sequence_of three_given.table) three_given.issued
Reach-Distinct_example =
    Reach-Distinct table 1 optimistic to_zero begun three_given begun-IsInitial three_given-Reach

Reach-DistinctTexts_example : DistinctTexts three_given.issued
Reach-DistinctTexts_example =
    Reach-DistinctTexts table 1 optimistic to_zero begun three_given begun-IsInitial
      three_given-Reach

-- A generator with a step of 1, closed behind the only number of its block.
abbrev single : System table
single = record {
  table = (700000000, 0);
  agents = λ i. record {
    sequence = record fresh { step = 1 };
    pc = checking constructor;
    stopped = false;
  };
  issued = [];
}

abbrev shut : System table → System table
shut u = record u { agents = put u.agents 0 (record (u.agents 0) { stopped = true }) }

abbrev used_up : System table
used_up = shut (gave 0 700000000 (ran 0 (ran 0 single)))

used_up-Reach : Reach table to_zero single used_up
unfolding advance after_take after_update renewed retry_later grant take_next updated
used_up-Reach =
    later (later (later (later here (run 0 refl)) (run 0 refl)) (receive 0 700000000 refl refl))
      (close 0 tt refl)

used_up-IsSpinning : IsSpinning (used_up.agents 0)
unfolding advance after_take after_update renewed retry_later grant take_next updated
used_up-IsSpinning = (refl, omega arith, inl refl)

IsSpinning-forever_example :
    IsSpinning ((ran 0 (ran 0 used_up)).agents 0) × (((ran 0 (ran 0 used_up)).agents 0).pc ≢ ended)
IsSpinning-forever_example =
    IsSpinning-forever table to_zero used_up (ran 0 (ran 0 used_up)) 0 used_up-IsSpinning
      (later (later here (run 0 refl)) (run 0 refl))

abbrev pub cell : Cell
cell = (700000000, 0)

cell-updated : (updated cell (shown cell) (700001000 % 2 ^ 64)).affected ≡ inr 1
unfolding updated
cell-updated = refl

renewal_block_example :
    ((two_steps table to_zero cell fresh (checking worker)).1.curr ≡ 700000000)
    × ((two_steps table to_zero cell fresh (checking worker)).1.max ≡ 700001000)
    × (optimistic.sequence_of (two_steps table to_zero cell fresh (checking worker)).0 ≡ 700001000)
    × ((two_steps table to_zero cell fresh (checking worker)).2 ≡ return_to worker 700000000)
unfolding optimistic
renewal_block_example =
    renewal_block table to_zero 1 optimistic worker cell fresh (shown cell)
      (record { row = refl; step_pos = omega arith; step_fits = omega arith }) refl cell-updated
