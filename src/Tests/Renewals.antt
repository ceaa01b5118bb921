-- ===== src/Tests/Renewals.antt =====
-- Renewals and a new generator on the table of one sequence, while another process takes blocks.
use turl.Base.{suc, ◌+◌, ◌^◌, ◌≡◌, inr, refl, none, some, List, [], ◌∷◌, ==_iff, lt→ltb, arith}
use turl.Errors.{ok}
use turl.Tddl.{Sequence, TddlConfig, checking, offering, worker, get_row_id}
use turl.Tddl.Ends.{Others, IsResponsive, HasBlock, renew_steps, renew-ends}
use turl.Tddl.New.{new_tddl, new_tddl-offers}
use turl.Tests.Generators.{shown, updated, table, optimistic, client, to_zero, fresh, cell}

responsive : IsResponsive table 1 optimistic
unfolding updated optimistic
responsive = record {
  reads = λ s. (shown s, refl);
  updates = λ s row value same current small.
      rw ((==_iff row.version s.1).1 current, lt→ltb value (2 ^ 63) small) refl;
}

-- Between a read and its update another process takes many blocks at once.
abbrev raced : List (Others table)
raced = none ∷ some (λ s. (800000000, suc s.1)) ∷ none ∷ none ∷ []

renew-ends_example :
    HasBlock table to_zero worker 1000
      (renew_steps table to_zero raced cell fresh (checking worker))
unfolding optimistic
renew-ends_example =
    renew-ends table to_zero 1 optimistic responsive raced worker cell fresh
      (record { row = refl; step_pos = omega arith; step_fits = omega arith }) (omega arith)
      (tt, ((λ s. omega arith), (tt, (tt, tt)))) (omega arith)

abbrev settings : TddlConfig
settings = record { step = 1000; seq_name = "tiny"; start_num = 10000 }

settings_found : (get_row_id table cell settings.seq_name settings.start_num).1 ≡ inr 1
unfolding get_row_id
settings_found = refl

new_tddl-offers_example :
    (q : Sequence) × ((new_tddl table to_zero raced cell "client" settings).1
      ≡ ok (q, offering q.curr))
    × (q.max ≡ q.curr + 1000)
unfolding optimistic get_row_id
new_tddl-offers_example =
    new_tddl-offers table to_zero 1 optimistic responsive raced cell "client" settings (omega arith)
      (omega arith) settings_found (omega arith) (tt, ((λ s. omega arith), (tt, (tt, tt))))
      (omega arith)
