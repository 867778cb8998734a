-- ===== src/Http/Reader/Drive/Bounds.antt =====
-- The whole drive stays inside the buffer, and ends.
use ckarta.Prelude.{
  ℕ, zero, suc, ◌-◌, ◌≤◌, ◌<◌, ◌≡◌, ◌≢◌, refl, Bool, true, false, ◌&&◌, [], ◌++◌, Bytes, Option,
  none, some, ◌==◌, if◌then◌else◌, length, length-append, length-drop, arith,
}
use ckarta.Http.Reader.{
  Reader, Driven, Processed, left, drained, stuck, Sink, Queues, process, has_bytes, buffer_bytes,
  read_budget_bytes, process_budget_bytes, incomplete, too_large,
}
use ckarta.Http.Reader.Rounds.{IsValid, ProcessedFits, process-ProcessedFits}
use ckarta.Http.Reader.Drive.{
  Received, got, end_of_stream, not_now, interrupted, failed, Outcome, give, compact,
  receive_length, at_eof, behind_receive, behind_process, drive_from, drive,
}

-- `recv` gives one byte at least, and no more than it was asked for.
abbrev pub IsReceive : (ℕ → ℕ → Received) → Type 0
IsReceive receive =
    (i asked : ℕ) (b : Bytes) → receive i asked ≡ got b → (0 < length b) × (length b ≤ asked)

abbrev pub IsUninterrupted : (ℕ → ℕ → Received) → Type 0
IsUninterrupted receive = (i asked : ℕ) → receive i asked ≢ interrupted

compact-IsValid : (r : Reader) → IsValid r → IsValid (compact r)
unfolding compact
compact-IsValid r v = ground (arith, length-drop r.begin r.bytes)

-- More bytes behind those of a reader.
abbrev with_bytes : Driven → Bytes → Driven
with_bytes d b = record d { reader = record d.reader { bytes = d.reader.bytes ++ b } }

with_bytes-IsValid :
    (d : Driven) (b : Bytes)
    → IsValid d.reader
    → length b ≤ buffer_bytes - length d.reader.bytes
    → IsValid (with_bytes d b).reader
with_bytes-IsValid d b v h =
    let e = length-append d.reader.bytes b in
    record {
      begin_inside = omega (arith, e, v.begin_inside);
      bytes_fit = omega (arith, e, h, v.bytes_fit);
    }

at_eof-kept : (d : Driven) → ((at_eof d).driven.reader ≡ d.reader) × ((at_eof d).result ≢ none)
unfolding at_eof
at_eof-kept d = ground arith

-- What holds of an outcome: a property of its reader, and a result unless it may lack one.
record Fits (must_end : Type 0) (o : Outcome) : Type 0 where
  valid : IsValid o.driven.reader
  ended : must_end → o.result ≢ none

behind_receive-Fits :
    {E : Type 0} (answer : Received) (d : Driven) (again : Bytes → Outcome)
    → IsValid d.reader
    → ((b : Bytes) → answer ≡ got b → Fits E (again b))
    → (answer ≡ interrupted → Fits E (again []))
    → Fits E (behind_receive answer d again)
unfolding behind_receive
behind_receive-Fits (got b) d again v h k = h b refl
behind_receive-Fits end_of_stream d again v h k =
    let (e, n) = at_eof-kept d in record { valid = rw e v; ended = λ x. n }
behind_receive-Fits not_now d again v h k = record { valid = v; ended = λ x. ground arith }
behind_receive-Fits interrupted d again v h k = k refl
behind_receive-Fits failed d again v h k = record { valid = v; ended = λ x. ground arith }

give-Fits :
    {E : Type 0} (r : ckarta.Http.Reader.ReadResult) (d : Driven)
    → IsValid d.reader
    → Fits E (give r d)
give-Fits r d v = record { valid = v; ended = λ x. ground arith }

either-Fits :
    {E : Type 0} (b : Bool) (x y : Outcome)
    → Fits E x
    → (b ≡ false → Fits E y)
    → Fits E (if b then x else y)
either-Fits true x y f g = f
either-Fits false x y f g = g refl

behind_process-Fits :
    {E : Type 0} (p : Processed) (receive : ℕ → Received) (budget read_budget : ℕ)
    (again : Driven → ℕ → ℕ → Outcome)
    → ProcessedFits budget p
    → ((asked : ℕ) (b : Bytes) → receive asked ≡ got b → (0 < length b) × (length b ≤ asked))
    → ((d : Driven) (rest read_rest : ℕ)
        → IsValid d.reader
        → read_rest < read_budget
        → Fits E (again d rest read_rest))
    → ((d : Driven) (rest asked : ℕ)
        → receive asked ≡ interrupted
        → IsValid d.reader
        → Fits E (again d rest read_budget))
    → Fits E (behind_process p receive read_budget again)
unfolding behind_process
behind_process-Fits (left r d) receive budget read_budget again f sound h k = give-Fits r d f
behind_process-Fits (stuck d) receive budget read_budget again f sound h k = absurd f
behind_process-Fits (drained d rest) receive budget read_budget again (v, l) sound h k =
    let e = record d { reader = compact d.reader } in
    let fits = compact-IsValid d.reader v in
    let wanted = receive_length e.reader read_budget in
    either-Fits (has_bytes d.reader && rest == 0) _ _ (give-Fits incomplete d v) λ n1.
      either-Fits (length d.reader.bytes == buffer_bytes && d.reader.begin == 0) _ _
        (give-Fits too_large d v)
        λ n2. either-Fits (read_budget == 0) _ _ (give-Fits incomplete e fits) λ n3.
          behind_receive-Fits (receive wanted) e _ fits
            (λ b q.
              let (some_bytes, few) = sound wanted b q in
              let room : length b ≤ buffer_bytes - length e.reader.bytes = ground arith in
              h (with_bytes e b) rest (read_budget - length b) (with_bytes-IsValid e b fits room)
                (ground arith))
            (λ q.
              let z : read_budget - 0 ≡ read_budget = omega arith in
              rw z (k (with_bytes e []) rest wanted q (with_bytes-IsValid e [] fits (omega arith))))

drive_from-Fits :
    (sink : Option Sink) (receive : ℕ → ℕ → Received) (fuel : ℕ) (d : Driven)
    (budget read_budget : ℕ)
    → IsReceive receive
    → IsValid d.reader
    → Fits
        (IsUninterrupted receive × (read_budget < fuel))
        (drive_from sink receive fuel d budget read_budget)
unfolding drive_from
drive_from-Fits sink receive zero d budget read_budget sound v = record {
  valid = v;
  ended = λ x. absurd (omega (arith, x.1));
}
drive_from-Fits sink receive (suc fuel) d budget read_budget sound v =
    behind_process-Fits (process sink (suc budget) d budget) (receive fuel) budget read_budget _
      (process-ProcessedFits sink (suc budget) d budget (omega arith) v) (sound fuel)
      (λ e rest read_rest k l.
        let f = drive_from-Fits sink receive fuel e rest read_rest sound k in
        record { valid = f.valid; ended = λ x. f.ended (x.0, omega (arith, x.1)) })
      (λ e rest asked q k.
        let f = drive_from-Fits sink receive fuel e rest read_budget sound k in
        record { valid = f.valid; ended = λ x. absurd (x.0 fuel asked q) })

drive-Fits :
    (r : Reader) (fd : ℕ) (sink : Option Sink) (receive : ℕ → ℕ → Received) (fuel : ℕ)
    (queues : Queues)
    → IsReceive receive
    → IsValid r
    → Fits
        (IsUninterrupted receive × (read_budget_bytes < fuel))
        (drive r (some fd) sink receive fuel queues)
unfolding drive
drive-Fits r fd sink receive fuel queues sound v =
    let d : Driven = record { reader = r; queues = queues; taken = [] } in
    drive_from-Fits sink receive fuel d process_budget_bytes read_budget_bytes sound v

-- However much fuel it has: as long as `recv` stores no more than it was asked for, a drive leaves
-- the processed offset inside the used part of the buffer and that inside its 65536 bytes, whatever
-- the input, the sink and the queue do.
pub drive-IsValid :
    (r : Reader) (socket_fd : Option ℕ) (sink : Option Sink) (receive : ℕ → ℕ → Received) (fuel : ℕ)
    (queues : Queues)
    → IsReceive receive
    → IsValid r
    → IsValid (drive r socket_fd sink receive fuel queues).driven.reader
unfolding drive
drive-IsValid r none sink receive fuel queues sound v = v
drive-IsValid r (some fd) sink receive fuel queues sound v =
    (drive-Fits r fd sink receive fuel queues sound v).valid

-- With fuel for one byte more than the read budget a drive returns, whatever the input, the sink and
-- the queue do: each `recv` gives a byte at least and no more than it was asked for, and none is
-- interrupted.
pub drive-ends :
    (r : Reader) (socket_fd : Option ℕ) (sink : Option Sink) (receive : ℕ → ℕ → Received) (fuel : ℕ)
    (queues : Queues)
    → IsReceive receive
    → IsUninterrupted receive
    → IsValid r
    → read_budget_bytes < fuel
    → (drive r socket_fd sink receive fuel queues).result ≢ none
unfolding drive
drive-ends r none sink receive fuel queues sound calm v h = ground arith
drive-ends r (some fd) sink receive fuel queues sound calm v h =
    (drive-Fits r fd sink receive fuel queues sound v).ended (calm, h)
