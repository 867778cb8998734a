-- ===== src/Http/Reader/Rounds.antt =====
-- The inner loop ends, stays inside the buffer and within its budget.
use ckarta.Prelude.{
  ℕ, zero, suc, ◌+◌, ◌-◌, ◌≤◌, ◌<◌, ◌≡◌, true, false, ◌++◌, Option, none, some, ltb, length, arith,
  Bool-cases, inl, inr,
}
use ckarta.Http.Input
use ckarta.Http.Input.{Input}
use ckarta.Http.Reader.{
  Reader, Driven, Round, returned, broke, went, Processed, left, drained, stuck, Sink, buffer_bytes,
  advance, acknowledge, behind_sink, queue_span, sink_span, behind_feed, process_round, process,
  go_on, has_bytes, feed_length_of, offered, write_body_queue, set_queue,
}

pub record IsValid (r : Reader) : Type 0 where
  pub begin_inside : r.begin ≤ length r.bytes
  pub bytes_fit : length r.bytes ≤ buffer_bytes

input_changes-IsValid : (r : Reader) (i : Input) → IsValid r → IsValid (record r { input = i })
input_changes-IsValid r i v = record { begin_inside = v.begin_inside; bytes_fit = v.bytes_fit }

-- What a round may do to the offset and to the budget.
abbrev RoundFits : ℕ → Round → Type 0
RoundFits budget (returned r d) = IsValid d.reader
RoundFits budget (broke d rest) = IsValid d.reader × (rest ≤ budget)
RoundFits budget (went d rest) = IsValid d.reader × (rest < budget)

advance-fits :
    (d : Driven) (budget : ℕ) (result : Input.Result) (consumed : ℕ)
    → IsValid d.reader
    → consumed ≤ feed_length_of d.reader budget
    → RoundFits budget (advance d budget result consumed)
unfolding advance
advance-fits d budget result consumed v h = ground arith

acknowledge-fits :
    (o : Option (Input × ℕ)) (d : Driven) (budget : ℕ) (f : Input.Fed)
    → IsValid d.reader
    → f.consumed ≤ feed_length_of d.reader budget
    → RoundFits budget (acknowledge o d budget (feed_length_of d.reader budget) f)
unfolding acknowledge
acknowledge-fits none d budget f v h = input_changes-IsValid d.reader f.input v
acknowledge-fits (some (i, n)) d budget f v h =
    let m = feed_length_of d.reader budget in
    elim (Bool-cases (ltb (m - f.consumed) n)) [
      | inl e ↦ rw e (input_changes-IsValid d.reader i v)
      | inr e ↦ rw e (
          advance-fits (record d { reader = record d.reader { input = i } }) budget f.result
            (f.consumed + n) (input_changes-IsValid d.reader i v) (ground arith))
    ]

behind_sink-fits :
    (answer : ℕ) (d : Driven) (budget : ℕ) (f : Input.Fed)
    → IsValid d.reader
    → f.consumed ≤ feed_length_of d.reader budget
    → RoundFits budget (behind_sink answer d budget (feed_length_of d.reader budget) f)
unfolding behind_sink
behind_sink-fits answer d budget f v h = ground (
  arith,
  acknowledge-fits (Input.ack_body f.input) (record d { taken = d.taken ++ f.body_span }) budget f v
      h,
)

queue_span-fits :
    (queue : Option ℕ) (d : Driven) (budget : ℕ) (f : Input.Fed)
    → IsValid d.reader
    → f.consumed ≤ feed_length_of d.reader budget
    → RoundFits budget (queue_span queue d budget (feed_length_of d.reader budget) f)
unfolding queue_span
queue_span-fits none d budget f v h = input_changes-IsValid d.reader f.input v
queue_span-fits (some at) d budget f v h =
    let (q, answer) = write_body_queue (d.queues at) f.body_span in
    behind_sink-fits answer (record d { queues = set_queue d.queues at q }) budget f v h

sink_span-fits :
    (sink : Option Sink) (call : ℕ) (d : Driven) (budget : ℕ) (f : Input.Fed)
    → IsValid d.reader
    → f.consumed ≤ feed_length_of d.reader budget
    → RoundFits budget (sink_span sink call d budget (feed_length_of d.reader budget) f)
unfolding sink_span
sink_span-fits none call d budget f v h = queue_span-fits d.reader.body_queue d budget f v h
sink_span-fits (some sink) call d budget f v h =
    behind_sink-fits (sink call f.body_span) d budget f v h

behind_feed-fits :
    (sink : Option Sink) (call : ℕ) (d : Driven) (budget : ℕ) (f : Input.Fed)
    → IsValid d.reader
    → RoundFits budget (behind_feed sink call d budget (feed_length_of d.reader budget) f)
unfolding behind_feed
behind_feed-fits sink call d budget f v =
    let m = feed_length_of d.reader budget in
    elim (Bool-cases (ltb m f.consumed)) [
      | inl e ↦ rw e (input_changes-IsValid d.reader f.input v)
      | inr e ↦
          let h : f.consumed ≤ m = ground arith in
          rw e (
            ground (
              arith,
              sink_span-fits sink call d budget f v h,
              advance-fits (record d { reader = record d.reader { input = f.input } }) budget
                  f.result f.consumed (input_changes-IsValid d.reader f.input v) h,
            ))
    ]

process_round-fits :
    (sink : Option Sink) (call : ℕ) (d : Driven) (budget : ℕ)
    → IsValid d.reader
    → RoundFits budget (process_round sink call d budget)
unfolding process_round
process_round-fits sink call d budget v = ground (
  arith,
  behind_feed-fits sink call d budget (Input.feed d.reader.input (offered d.reader budget)) v,
)

-- What the inner loop may do.
abbrev pub ProcessedFits : ℕ → Processed → Type 0
ProcessedFits budget (left r d) = IsValid d.reader
ProcessedFits budget (drained d rest) = IsValid d.reader × (rest ≤ budget)
ProcessedFits budget (stuck d) = ⊥

spends_less :
    (p : Processed) (rest budget : ℕ)
    → rest ≤ budget
    → ProcessedFits rest p
    → ProcessedFits budget p
spends_less (left r d) rest budget l f = f
spends_less (drained d m) rest budget l (v, k) = (v, omega arith)
spends_less (stuck d) rest budget l f = f

go_on-fits :
    (round : Round) (budget : ℕ) (next : Driven → ℕ → Processed)
    → RoundFits budget round
    → ((d : Driven) (rest : ℕ)
        → IsValid d.reader
        → rest < budget
        → ProcessedFits rest (next d rest))
    → ProcessedFits budget (go_on round next)
go_on-fits (returned r d) budget next f h = f
go_on-fits (broke d rest) budget next f h = f
go_on-fits (went d rest) budget next (v, l) h =
    spends_less (next d rest) rest budget (omega arith) (h d rest v l)

process_works :
    (sink : Option Sink) (fuel : ℕ) (d : Driven) (budget : ℕ)
    → has_bytes d.reader ≡ true
    → process sink (suc fuel) d budget
      ≡ go_on (process_round sink fuel d budget) (λ e rest. process sink fuel e rest)
unfolding process
process_works sink fuel d budget h = ground (arith, h)

process_ends :
    (sink : Option Sink) (fuel : ℕ) (d : Driven) (budget : ℕ)
    → has_bytes d.reader ≡ false
    → process sink (suc fuel) d budget ≡ drained d budget
unfolding process
process_ends sink fuel d budget h = ground (arith, h)

-- The inner loop ends, if it has more fuel than budget: each round that goes on spends of it. It
-- leaves the offset inside the buffer and spends no more than the budget.
pub process-ProcessedFits :
    (sink : Option Sink) (fuel : ℕ) (d : Driven) (budget : ℕ)
    → budget < fuel
    → IsValid d.reader
    → ProcessedFits budget (process sink fuel d budget)
process-ProcessedFits sink zero d budget h v = absurd (omega arith)
process-ProcessedFits sink (suc fuel) d budget h v = elim (Bool-cases (has_bytes d.reader)) [
  | inl e ↦ rw (process_works sink fuel d budget e) (
      go_on-fits (process_round sink fuel d budget) budget _
        (process_round-fits sink fuel d budget v)
        (λ c rest k l. process-ProcessedFits sink fuel c rest (omega arith) k))
  | inr e ↦ rw (process_ends sink fuel d budget e) (v, omega arith)
]
