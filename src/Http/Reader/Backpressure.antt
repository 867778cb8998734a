-- ===== src/Http/Reader/Backpressure.antt =====
-- A sink that blocks on the first span of a body, which the round that ends the head hands out.
use ckarta.Prelude.{ℕ, ◌+◌, ◌≤◌, ◌≡◌, ◌≢◌, false, Bytes, some, arith}
use ckarta.Http.Bytes.{is_empty}
use ckarta.Http.Input
use ckarta.Http.Reader.{
  Driven, Round, returned, broke, went, Sink, body_backpressure, with_input, process_round,
  behind_feed, sink_span, behind_sink, acknowledge, advance, feed_length_of, offered,
}

-- The offset that a round leaves.
pub begin_of : Round → ℕ
begin_of (returned r d) = d.reader.begin
begin_of (broke d rest) = d.reader.begin
begin_of (went d rest) = d.reader.begin

-- What the input makes of the bytes that a round offers it.
abbrev pub fed_by : Driven → ℕ → Input.Fed
fed_by d budget = Input.feed d.reader.input (offered d.reader budget)

-- A round that feeds the input and finds a span.
blocked_round :
    (sink : Sink) (call : ℕ) (d : Driven) (budget : ℕ)
    → budget ≢ 0
    → (fed_by d budget).consumed ≤ feed_length_of d.reader budget
    → is_empty (fed_by d budget).body_span ≡ false
    → sink call (fed_by d budget).body_span ≡ 2
    → process_round (some sink) call d budget
      ≡ returned body_backpressure (with_input d (fed_by d budget).input)
unfolding process_round behind_feed sink_span behind_sink
blocked_round sink call d budget b h s a = ground arith

feed-pending :
    (i : Input.Input) (source : Bytes)
    → is_empty i.pending_body ≡ false
    → Input.feed i source
      ≡ record { result = Input.body; input = i; consumed = 0; body_span = i.pending_body }
unfolding Input.feed
feed-pending i source h = ground (arith, h)

retried_round :
    (sink : Sink) (call : ℕ) (d : Driven) (budget : ℕ)
    → budget ≢ 0
    → is_empty d.reader.input.pending_body ≡ false
    → d.reader.input.pending_input_consumed ≤ feed_length_of d.reader budget
    → sink call d.reader.input.pending_body ≡ 0
    → begin_of (process_round (some sink) call d budget)
      ≡ d.reader.begin + d.reader.input.pending_input_consumed
unfolding process_round behind_feed sink_span behind_sink acknowledge advance Input.ack_body
    begin_of
retried_round sink call d budget b p h a =
    rw (feed-pending d.reader.input (offered d.reader budget) p) (ground arith)

-- A round that feeds the input, finds a span and has it taken.
taken_round :
    (sink : Sink) (call : ℕ) (d : Driven) (budget : ℕ)
    → budget ≢ 0
    → (fed_by d budget).consumed + (fed_by d budget).input.pending_input_consumed
      ≤ feed_length_of d.reader budget
    → is_empty (fed_by d budget).body_span ≡ false
    → is_empty (fed_by d budget).input.pending_body ≡ false
    → sink call (fed_by d budget).body_span ≡ 0
    → begin_of (process_round (some sink) call d budget)
      ≡ d.reader.begin
        + ((fed_by d budget).consumed + (fed_by d budget).input.pending_input_consumed)
unfolding process_round behind_feed sink_span behind_sink acknowledge advance Input.ack_body
    begin_of
taken_round sink call d budget b h s p a = ground arith

-- The same bytes of the body handed out at once, or blocked and handed out again: where a round
-- consumes bytes in front of the body and hands out the span of a body behind them, a sink that
-- takes the span leaves the reader further on, by exactly the bytes consumed, than a sink that blocks
-- first and takes the same span in the next round, with either budget. So after a retry the reader
-- stands inside bytes that it has processed.
pub blocked-retried :
    (blocking taking : Sink) (call again : ℕ) (d : Driven) (budget later : ℕ)
    → budget ≢ 0
    → later ≢ 0
    → (fed_by d budget).consumed + (fed_by d budget).input.pending_input_consumed
      ≤ feed_length_of d.reader budget
    → is_empty (fed_by d budget).body_span ≡ false
    → (fed_by d budget).input.pending_body ≡ (fed_by d budget).body_span
    → (fed_by d budget).input.pending_input_consumed ≤ feed_length_of d.reader later
    → blocking call (fed_by d budget).body_span ≡ 2
    → taking call (fed_by d budget).body_span ≡ 0
    → taking again (fed_by d budget).body_span ≡ 0
    → (e : Driven) × (process_round (some blocking) call d budget ≡ returned body_backpressure e)
      × (begin_of (process_round (some taking) call d budget)
          ≡ begin_of (process_round (some taking) again e later) + (fed_by d budget).consumed)
blocked-retried blocking taking call again d budget later b l h s p q x z y =
    let f = fed_by d budget in
    let e = with_input d f.input in
    let once = taken_round taking call d budget b h s (rw p s) z in
    let retried = retried_round taking again e later l (rw p s) q (rw p y) in
    (e, blocked_round blocking call d budget b (omega (arith, h)) s x, omega (arith, once, retried))
