-- ===== src/Http/Reader.antt =====
-- The reader of one connection, c/http/ck_http_connection_reader.c: it fills its buffer from the
-- socket, feeds the input, and hands body spans to a sink, within two budgets. `bytes` is the used
-- prefix `buffer[0 .. end)`. The body queue is known by the number of its block in a store, which
-- others hold too. What the sink and the socket answer is a parameter.
pub mod Rounds
pub mod Drive
pub mod Backpressure
use ckarta.Prelude.{
  ℕ, zero, suc, ◌+◌, ◌-◌, Bool, true, false, not, ◌&&◌, ◌||◌, [], ◌++◌, Bytes, Option, none, some,
  ltb, ◌==◌, if◌then◌else◌, length, take, drop,
}
use ckarta.Http.Bytes.{is_empty}
use ckarta.Http.Input
use ckarta.Http.Input.{Input}
use ckarta.Http.Parser
use ckarta.Http.RequestBody
use ckarta.Http.RequestBody.{RequestBody}

abbrev pub buffer_bytes : ℕ
buffer_bytes = 65536

abbrev pub read_budget_bytes : ℕ
read_budget_bytes = 32768

abbrev pub process_budget_bytes : ℕ
process_budget_bytes = 32768

pub data ReadResult : Type 0 where
  incomplete request_complete bad_request too_large eof_incomplete io_error sink_error
        body_backpressure :
      ReadResult

pub record Reader : Type 0 where
  pub input : Input
  pub body_queue : Option ℕ
  pub bytes : Bytes
  pub begin : ℕ

abbrev pub Queues : Type 0
Queues = ℕ → RequestBody

-- The reader and the queues, with the bytes that a sink has taken in this call.
pub record Driven : Type 0 where
  pub reader : Reader
  pub queues : Queues
  pub taken : Bytes

unfoldable pub init : Reader
init = record { input = Input.init; body_queue = none; bytes = []; begin = 0 }

pub attach_body_queue : Reader → Option ℕ → Reader
attach_body_queue r queue = record r { body_queue = queue }

unfoldable pub set_queue : Queues → ℕ → RequestBody → Queues
set_queue queues at queue i = if i == at then queue else queues i

-- An operation on the attached queue, if there is one.
unfoldable pub on_queue : (RequestBody → RequestBody) → Option ℕ → Queues → Queues
unfolding set_queue
on_queue f none queues = queues
on_queue f (some at) queues = set_queue queues at (f (queues at))

-- A sink answers 0 if it has taken the span, 2 if it would block, another number for an error.
abbrev pub Sink : Type 0
Sink = ℕ → Bytes → ℕ

abbrev written_all : RequestBody.WriteResult → ℕ → ℕ → ℕ
written_all RequestBody.written n m = if n == m then 0 else 2
written_all RequestBody.would_block n m = 2
written_all RequestBody.closed n m = 1
written_all RequestBody.write_invalid n m = 1

unfoldable pub write_body_queue : RequestBody → Bytes → RequestBody × ℕ
write_body_queue queue span =
    let (result, q, n) = RequestBody.write queue span in (q, written_all result n (length span))

pub map_input_result : Input.Result → ReadResult
map_input_result Input.incomplete = incomplete
map_input_result Input.body = incomplete
map_input_result Input.complete = request_complete
map_input_result Input.too_large = too_large
map_input_result Input.eof_incomplete = eof_incomplete
map_input_result Input.bad_request = bad_request

-- What one round of the inner loop does: return, leave the loop, or go on, with what is left of the
-- budget.
pub data Round : Type 0 where
  returned : ReadResult → Driven → Round
  broke went : Driven → ℕ → Round

-- What the whole loop does: return, or end with what is left of the budget. `stuck` is the loop
-- without fuel, which does not occur (Reader/Rounds).
pub data Processed : Type 0 where
  left : ReadResult → Driven → Processed
  drained : Driven → ℕ → Processed
  stuck : Driven → Processed

abbrev pub with_input : Driven → Input → Driven
with_input d i = record d { reader = record d.reader { input = i } }

abbrev pub is_full_stop : ReadResult → Bool
is_full_stop request_complete = true
is_full_stop bad_request = true
is_full_stop too_large = true
is_full_stop eof_incomplete = true
is_full_stop _ = false

-- The end of a round, with `consumed` of the budget spent.
pub advance : Driven → ℕ → Input.Result → ℕ → Round
unfolding map_input_result on_queue
advance d budget result consumed =
    let r = record d.reader { begin = d.reader.begin + consumed } in
    let e = record d { reader = r } in
    let rest = budget - consumed in
    if r.input.message_complete
    then returned request_complete
        (record e { queues = on_queue RequestBody.mark_eof r.body_queue d.queues })
    else if is_full_stop (map_input_result result)
    then returned (map_input_result result) e
    else if r.begin == length r.bytes || consumed == 0
    then broke e rest
    else went e rest

-- A span that the sink has taken; `consumed` bytes of the input are consumed so far, of
-- `feed_length`. The option is what `ck_http_input_ack_body` gives.
pub acknowledge : Option (Input × ℕ) → Driven → ℕ → ℕ → Input.Fed → Round
unfolding advance
acknowledge none d budget feed_length f = returned io_error (with_input d f.input)
acknowledge (some (i, n)) d budget feed_length f =
    if ltb (feed_length - f.consumed) n
    then returned io_error (with_input d i)
    else advance (with_input d i) budget f.result (f.consumed + n)

abbrev is_zero : ℕ → Bool
is_zero n = n == 0

-- The answer of a sink.
pub behind_sink : ℕ → Driven → ℕ → ℕ → Input.Fed → Round
unfolding acknowledge
behind_sink answer d budget feed_length f =
    if answer == 2
    then returned body_backpressure (with_input d f.input)
    else if not (is_zero answer)
    then returned sink_error (with_input d f.input)
    else acknowledge (Input.ack_body f.input) (record d { taken = d.taken ++ f.body_span }) budget
        feed_length f

-- The attached queue as a sink, if there is one.
pub queue_span : Option ℕ → Driven → ℕ → ℕ → Input.Fed → Round
unfolding behind_sink set_queue
queue_span none d budget feed_length f = returned sink_error (with_input d f.input)
queue_span (some at) d budget feed_length f =
    let (q, answer) = write_body_queue (d.queues at) f.body_span in
    behind_sink answer (record d { queues = set_queue d.queues at q }) budget feed_length f

-- The sink of the caller, or the queue.
pub sink_span : Option Sink → ℕ → Driven → ℕ → ℕ → Input.Fed → Round
unfolding behind_sink queue_span
sink_span (some sink) call d budget feed_length f =
    behind_sink (sink call f.body_span) d budget feed_length f
sink_span none call d budget feed_length f = queue_span d.reader.body_queue d budget feed_length f

-- What follows a call of the input.
pub behind_feed : Option Sink → ℕ → Driven → ℕ → ℕ → Input.Fed → Round
unfolding sink_span advance
behind_feed sink call d budget feed_length f =
    if ltb feed_length f.consumed
    then returned io_error (with_input d f.input)
    else if not (is_empty f.body_span)
    then sink_span sink call d budget feed_length f
    else advance (with_input d f.input) budget f.result f.consumed

abbrev pub feed_length_of : Reader → ℕ → ℕ
feed_length_of r budget =
    let available = length r.bytes - r.begin in if ltb available budget then available else budget

abbrev pub offered : Reader → ℕ → Bytes
offered r budget = take (feed_length_of r budget) (drop r.begin r.bytes)

pub process_round : Option Sink → ℕ → Driven → ℕ → Round
unfolding behind_feed
process_round sink call d budget =
    if budget == 0
    then returned incomplete d
    else behind_feed sink call d budget (feed_length_of d.reader budget)
        (Input.feed d.reader.input (offered d.reader budget))

abbrev pub has_bytes : Reader → Bool
has_bytes r = ltb r.begin (length r.bytes)

abbrev pub go_on : Round → (Driven → ℕ → Processed) → Processed
go_on (returned r d) next = left r d
go_on (broke d budget) next = drained d budget
go_on (went d budget) next = next d budget

-- The inner loop. A round that goes on spends of the budget, so that a budget and one is fuel
-- enough.
pub process : Option Sink → ℕ → Driven → ℕ → Processed
unfolding process_round
process sink zero d budget = stuck d
process sink (suc fuel) d budget = elim (has_bytes d.reader) [
  | false ↦ drained d budget
  | true ↦ go_on (process_round sink fuel d budget) (λ e rest. process sink fuel e rest)
]
