-- ===== src/Tddl.antt =====
-- pkg/tddl/tddl.go: the sequence generator. The table of sequences, which gorm and its
-- optimistic-lock plugin reach, is a parameter; the generator is a state machine whose steps are the
-- calls and channel operations of `newSequence`, `renew`, `worker`, `Next` and `Close`.
pub mod Table
pub mod System
pub mod Known
pub mod Effect
pub mod Apart
pub mod Unique
pub mod Progress
pub mod Ends
pub mod New
pub mod ShortUrls
use Prim.Native.String.{String}
use turl.Base.{
  ℕ, zero, suc, ◌+◌, ◌-◌, ◌%◌, ◌^◌, Bool, true, false, ◌⊎◌, inl, inr, Option, none, some, ltb, leb,
  ◌==◌, if◌then◌else◌,
}
use turl.Errors.{Error, is_record_not_found, step_too_small, Result, ok, err, context_done}
use turl.RateLimit.{Comparable}
use turl.RateLimit.Exponential
use turl.RateLimit.Exponential.{Exponential, Conversion, new_exponential}

-- The columns of a row of `sequences` that the program reads or writes.
pub record Row : Type 0 where
  pub id : ℕ
  pub sequence : ℕ
  pub version : ℕ

-- What an update of the column `sequence` leaves: the table, an error or the number of rows that
-- were changed, and the row value that gorm filled in.
pub record Updated (State : Type 0) : Type 0 where
  pub state : State
  pub affected : Error ⊎ ℕ
  pub held : Row

-- The table of sequences: `Take` by name and by id, `Create`, and `Model(&seq).Update("sequence", v)`
-- under the optimistic lock.
pub record SequenceTable : Type 1 where
  pub State : Type 0
  pub take_named : State → String → State × (Error ⊎ Row)
  pub take : State → ℕ → State × (Error ⊎ Row)
  pub create : State → String → ℕ → State × (Error ⊎ Row)
  pub update : State → Row → ℕ → Updated State

-- configs.TDDLConfig
pub record TddlConfig : Type 0 where
  pub step : ℕ
  pub seq_name : String
  pub start_num : ℕ

-- tddlSequence, without the channels: those are steps.
pub record Sequence : Type 0 where
  pub client_id : String
  pub row_id : ℕ
  pub step : ℕ
  pub max : ℕ
  pub curr : ℕ
  pub rate_limiter : Exponential String

-- retryInterval and time.Minute, in nanoseconds
abbrev pub retry_interval : ℕ
retry_interval = 10_000_000

abbrev pub max_retry_interval : ℕ
max_retry_interval = 60_000_000_000

module _ (T : SequenceTable) where
  -- createRecord
  create_record : T.State → String → ℕ → T.State × (Error ⊎ ℕ)
  create_record s name start =
      let (s', reply) = T.create s name start in
      elim reply [ inl e ↦ (s', inl e) | inr row ↦ (s', inr row.id) ]

  -- getRowID: the row of that name, or a new one where there is none.
  unfoldable pub get_row_id : T.State → String → ℕ → T.State × (Error ⊎ ℕ)
  unfolding create_record
  get_row_id s name start =
      let (s', reply) = T.take_named s name in
      elim reply [
        | inl e ↦ if is_record_not_found e then create_record s' name start else (s', inl e)
        | inr row ↦ (s', inr row.id)
      ]

  -- newSequence up to its call of `renew`.
  unfoldable pub new_sequence : T.State → String → TddlConfig → T.State × Result Sequence
  unfolding get_row_id
  new_sequence s client_id c =
      let (s', reply) = get_row_id s c.seq_name c.start_num in
      let made : T.State × Result Sequence = elim reply [
        | inl e ↦ (s', err e)
        | inr id ↦ (
          s',
          ok (record {
            client_id = client_id;
            row_id = id;
            step = c.step;
            max = 0;
            curr = 0;
            rate_limiter = new_exponential retry_interval max_retry_interval;
          }),
        )
      ] in
      if ltb c.step 1 then (s, err step_too_small) else made

-- Who called `renew`: `newSequence`, or the loop of `worker`.
pub data Caller : Type 0 where
  constructor worker : Caller

-- Where a generator stands: at the top of the loop of `renew`; between its read and its write of the
-- row; at the test `next >= s.max` of `worker`, with `next` the current number; at the `select` of
-- `worker`, offering a number; or after `worker` returned.
pub data Pc : Type 0 where
  checking : Caller → Pc
  updating : Caller → Row → Pc
  testing : Pc
  offering : ℕ → Pc
  ended : Pc

-- A generator that runs; `stopped` says that `stop` is closed.
pub record Agent : Type 0 where
  pub sequence : Sequence
  pub pc : Pc
  pub stopped : Bool

-- Where the caller of `renew` goes on.
abbrev pub return_to : Caller → ℕ → Pc
return_to constructor curr = offering curr
return_to worker curr = testing

-- s.curr.Store(seq.Sequence - s.step); s.max = seq.Sequence
unfoldable pub grant : Sequence → Row → Sequence
grant q row = record q { curr = (row.sequence + 2 ^ 64 - q.step) % 2 ^ 64; max = row.sequence }

abbrev pub is_one : Error ⊎ ℕ → Bool
is_one (inl e) = false
is_one (inr n) = n == 1

module _ ⦃c : Comparable String⦄ (convert : Conversion) where
  -- time.Sleep(s.rateLimiter.When(ctx, s.clientID)), of which the count of failures remains.
  unfoldable pub retry_later : Sequence → Sequence
  unfolding Exponential.when
  retry_later q = record q {
    rate_limiter = (Exponential.when convert q.rate_limiter q.client_id).0;
  }

  -- defer s.rateLimiter.Forget(ctx, s.clientID)
  unfoldable pub renewed : Sequence → Sequence
  unfolding Exponential.forget
  renewed q = record q { rate_limiter = Exponential.forget q.rate_limiter q.client_id }

  module _ (T : SequenceTable) where
    -- What `renew` does with the reply to its read.
    unfoldable pub after_take :
        Caller → Sequence → T.State × (Error ⊎ Row) → T.State × Sequence × Pc
    after_take caller q (s, inl e) = (s, retry_later q, checking caller)
    after_take caller q (s, inr row) = (s, q, updating caller row)

    -- What `renew` does with the reply to its update.
    unfoldable pub after_update : Caller → Sequence → Updated T.State → T.State × Sequence × Pc
    after_update caller q u =
        let q' = grant q u.held in
        if is_one u.affected
        then (u.state, renewed q', return_to caller q'.curr)
        else (u.state, retry_later q, checking caller)

    -- The next step of a generator that does not wait on a channel.
    unfoldable pub advance : T.State → Bool → Sequence → Pc → T.State × Sequence × Pc
    unfolding after_take after_update retry_later renewed grant
    advance s stopped q (checking caller) =
        if stopped
        then (s, renewed q, return_to caller q.curr)
        else after_take caller q (T.take s q.row_id)
    advance s stopped q (updating caller row) =
        after_update caller q (T.update s row ((row.sequence + q.step) % 2 ^ 64))
    advance s stopped q testing =
        if leb q.max q.curr then (s, q, checking worker) else (s, q, offering q.curr)
    advance s stopped q (offering next) = (s, q, offering next)
    advance s stopped q ended = (s, q, ended)

-- next = s.curr.Add(1), after a value was received
unfoldable pub take_next : Sequence → Sequence
take_next q = record q { curr = (q.curr + 1) % 2 ^ 64 }

-- What `Next` finds: its context done before or while it waits, or a number on the queue.
pub data Wait : Type 0 where
  done : Wait
  received : ℕ → Wait

-- Next, of whose two `select`s the first looks at the context only.
unfoldable pub next : Bool → Wait → Result ℕ
next true w = err context_done
next false done = err context_done
next false (received n) = ok n
