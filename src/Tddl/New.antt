-- ===== src/Tddl/New.antt =====
-- `New` of pkg/tddl/tddl.go, from the configuration to the first number that the generator offers.
use Prim.Native.String.{String}
use turl.Base.{
  ℕ, suc, ◌+◌, ◌*◌, ◌^◌, ◌≤◌, ◌<◌, ◌≡◌, inr, refl, ap, ◌∙◌, false, ltb, arith, List, length, All,
}
use turl.Errors.{Result, ok, err, panicked}
use turl.RateLimit.{Comparable}
use turl.RateLimit.Exponential.{Conversion, new_exponential}
use turl.Tddl.{
  SequenceTable, Sequence, TddlConfig, Pc, checking, offering, constructor, get_row_id,
  new_sequence, retry_interval, max_retry_interval,
}
use turl.Tddl.Table.{IsOptimistic}
use turl.Tddl.Ends.{
  Others, interruptions, renew_steps, IsResponsive, HasRoom, LeavesRoom, renew-ends,
}

module _ (T : SequenceTable) ⦃c : Comparable String⦄ (convert : Conversion) where
  -- `newSequence` behind `getRowID`: the renewal, which leaves the generator where the worker begins.
  unfoldable pub first_renewal :
      List (Others T) → T.State × Result Sequence → T.State × Result (Sequence × Pc)
  unfolding renew_steps
  first_renewal os (s, ok q) =
      let (s', q', pc') = renew_steps T convert os s q (checking constructor) in (s', ok (q', pc'))
  first_renewal os (s, err e) = (s, err e)
  first_renewal os (s, panicked) = (s, panicked)

  -- New, with the steps of its renewal
  unfoldable pub new_tddl :
      List (Others T) → T.State → String → TddlConfig → T.State × Result (Sequence × Pc)
  unfolding first_renewal new_sequence
  new_tddl os s client_id config = first_renewal os (new_sequence T s client_id config)

  -- A new generator over the row `id`, before its first renewal.
  abbrev unfilled : String → TddlConfig → ℕ → Sequence
  unfilled client_id config id = record {
    client_id = client_id;
    row_id = id;
    step = config.step;
    max = 0;
    curr = 0;
    rate_limiter = new_exponential retry_interval max_retry_interval;
  }

  new_sequence_found :
      (s : T.State) (client_id : String) (config : TddlConfig) (id : ℕ)
      → 1 ≤ config.step
      → (get_row_id T s config.seq_name config.start_num).1 ≡ inr id
      → new_sequence T s client_id config
        ≡ ((get_row_id T s config.seq_name config.start_num).0, ok (unfilled client_id config id))
  unfolding new_sequence
  new_sequence_found s client_id config id step_pos found =
      let large : ltb config.step 1 ≡ false = ground arith in rw (large, found) refl

  -- With a step of at least 1 and below 2 ^ 63, and a row that was found or made and has room for one more
  -- block, `New` over a database that answers returns a generator that offers the first number of one
  -- whole block, after at most two steps for each time that other processes touch the table, and two
  -- more.
  pub new_tddl-offers :
      (id : ℕ) (o : IsOptimistic T id) (r : IsResponsive T id o) (os : List (Others T))
      (s : T.State) (client_id : String) (config : TddlConfig)
      → 1 ≤ config.step
      → config.step < 2 ^ 63
      → (get_row_id T s config.seq_name config.start_num).1 ≡ inr id
      → HasRoom T convert id o r config.step (get_row_id T s config.seq_name config.start_num).0
      → All (LeavesRoom T convert id o r config.step) os
      → 2 * suc (interruptions T os) ≤ length os
      → (q : Sequence) × ((new_tddl os s client_id config).1 ≡ ok (q, offering q.curr))
        × (q.max ≡ q.curr + config.step)
  unfolding new_tddl first_renewal
  new_tddl-offers id o r os s client_id config step_pos step_fits found room leaves long =
      let s' : T.State = (get_row_id T s config.seq_name config.start_num).0 in
      let q : Sequence = unfilled client_id config id in
      let block =
        renew-ends T convert id o r os constructor s' q
          (record { row = refl; step_pos = step_pos; step_fits = step_fits }) room leaves long in
      let end = renew_steps T convert os s' q (checking constructor) in
      (
        end.1,
        ap (λ made. (first_renewal os made).1)
              (new_sequence_found s client_id config id step_pos found)
            ∙ ap (λ pc. ok (end.1, pc)) block.0,
        block.1,
      )
