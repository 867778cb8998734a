-- ===== src/Http/RequestBody/Fifo.antt =====
-- The queue as what it promises: a first-in first-out row of at most 65536 bytes.
use ckarta.Prelude.{
  ℕ, ◌+◌, ◌-◌, ◌%◌, ◌≤◌, ◌≡◌, refl, sym, ap, ◌∙◌, Bool, ◌||◌, [], ◌∷◌, ◌++◌, Bytes, append-nil, ltb,
  ◌==◌, if◌then◌else◌, length, take, drop, take_beyond, drop_beyond, take-length-append,
  drop-length-append, arith, le_or_lt, inl, inr, uint64_max, add64, sub64,
}
use ckarta.Http.RequestBody.{
  RequestBody, WriteResult, written, would_block, closed, ReadResult, read_bytes, no_bytes,
  end_of_body, failed, buffer_bytes, body_used, store, fetch, write, read,
}
use ckarta.Http.RequestBody.Ring.{
  ring, length-ring, ring-append, ring_wraps, ring_agrees, ring_holds, store_covers, store_spares,
  fetch-ring,
}

-- The counters are 64-bit numbers, and at most a full buffer apart.
pub record IsValid (b : RequestBody) : Type 0 where
  pub head_fits : b.head ≤ uint64_max
  pub tail_fits : b.tail ≤ uint64_max
  pub used_fits : sub64 b.head b.tail ≤ buffer_bytes

-- The bytes that are written and not yet read, in order.
unfoldable pub contents : RequestBody → Bytes
unfolding body_used
contents b = ring b.buffer b.tail (body_used b.head b.tail)

store-ring :
    (buffer : ℕ → ℕ) (head tail used : ℕ) (source : Bytes)
    → head % buffer_bytes ≡ (tail + used) % buffer_bytes
    → used + length source ≤ buffer_bytes
    → ring (store buffer head source) tail (used + length source) ≡ ring buffer tail used ++ source
store-ring buffer head tail used source e h =
    let n = length source in
    let kept = ring_agrees buffer (store buffer head source) tail used (λ j l.
      let k : (tail + j) % buffer_bytes ≡ (head + (buffer_bytes - used + j)) % buffer_bytes =
        omega arith in
      rw k
        (store_spares buffer head source (buffer_bytes - used + j) (omega arith) (omega arith))) in
    let added = ring_holds (store buffer head source) (tail + used) source (λ j l.
      let k : (tail + used + j) % buffer_bytes ≡ (head + j) % buffer_bytes = omega arith in
      rw k (store_covers buffer head source j (omega arith) l)) in
    ring-append (store buffer head source) tail used n ∙ rw (kept, added) refl

-- Writing to a row of bytes that is `shut` or not: all or nothing, within the capacity.
pub fifo_write : Bytes → Bool → Bytes → WriteResult × Bytes × ℕ
fifo_write row shut source =
    if length source == 0
    then (written, row, 0)
    else if shut
    then (closed, row, 0)
    else if ltb buffer_bytes (length row + length source)
    then (would_block, row, 0)
    else (written, row ++ source, length source)

-- Reading from its front; an empty row answers by its flags, the error first.
pub fifo_read : Bytes → Bool → Bool → ℕ → ReadResult × Bytes × Bytes
fifo_read row eof error capacity =
    if length row == 0
    then (if error then failed else if eof then end_of_body else no_bytes, row, [])
    else if capacity == 0
    then (no_bytes, row, [])
    else (read_bytes, drop capacity row, take capacity row)

pub write-IsValid : (b : RequestBody) (source : Bytes) → IsValid b → IsValid (write b source).1
unfolding write body_used
write-IsValid b source v = ground arith

pub read-IsValid : (b : RequestBody) (capacity : ℕ) → IsValid b → IsValid (read b capacity).1
unfolding read body_used
read-IsValid b capacity v = ground arith

length-contents : (b : RequestBody) → length (contents b) ≡ sub64 b.head b.tail
unfolding contents body_used
length-contents b = length-ring b.buffer b.tail (sub64 b.head b.tail)

contents-stored :
    (b : RequestBody) (source : Bytes)
    → IsValid b
    → sub64 b.head b.tail + length source ≤ buffer_bytes
    → contents
        (record b { buffer = store b.buffer b.head source; head = add64 b.head (length source) })
      ≡ contents b ++ source
unfolding contents body_used
contents-stored b source v h =
    let used = sub64 b.head b.tail in
    let e : sub64 (add64 b.head (length source)) b.tail ≡ used + length source =
      omega (arith, v.head_fits, v.tail_fits) in
    rw e (store-ring b.buffer b.head b.tail used source (omega (arith, v.head_fits, v.tail_fits)) h)

-- On a valid queue `write` does to the row of unread bytes what `fifo_write` does, wherever the ring
-- wraps and whether or not its counters do.
pub write-fifo :
    (b : RequestBody) (source : Bytes)
    → IsValid b
    → let (result, c, n) = write b source in
      (result, contents c, n) ≡ fifo_write (contents b) (b.eof || b.error) source
unfolding write fifo_write body_used
write-fifo b source v = ground (arith, length-contents b, contents-stored b source v)

fetch-split :
    (b : RequestBody) (n : ℕ)
    → IsValid b
    → n ≤ sub64 b.head b.tail
    → contents b ≡ fetch b.buffer b.tail n ++ contents (record b { tail = add64 b.tail n })
unfolding contents body_used
fetch-split b n v h =
    let used = sub64 b.head b.tail in
    let e : used ≡ n + (used - n) = omega (arith, v.used_fits) in
    let left : sub64 b.head (add64 b.tail n) ≡ used - n =
      omega (arith, v.head_fits, v.tail_fits, v.used_fits) in
    let wraps = ring_wraps b.buffer (add64 b.tail n) (b.tail + n) (used - n) (omega arith) in
    ap (ring b.buffer b.tail) e
    ∙ ring-append b.buffer b.tail n (used - n)
    ∙ rw (left, wraps, fetch-ring b.buffer b.tail n (omega (arith, h, v.used_fits))) refl

length-fetch : (b : RequestBody) (n : ℕ) → n ≤ buffer_bytes → length (fetch b.buffer b.tail n) ≡ n
length-fetch b n h = ap length (fetch-ring b.buffer b.tail n h) ∙ length-ring b.buffer b.tail n

-- The bytes that `read` fetches and those that it leaves, where it is asked for some of the row.
fetch_some :
    (b : RequestBody) (n : ℕ)
    → IsValid b
    → n ≤ sub64 b.head b.tail
    → (take n (contents b) ≡ fetch b.buffer b.tail n)
      × (drop n (contents b) ≡ contents (record b { tail = add64 b.tail n }))
fetch_some b n v h =
    let front = fetch b.buffer b.tail n in
    let rest = contents (record b { tail = add64 b.tail n }) in
    let e : length front ≡ n = length-fetch b n (omega (arith, h, v.used_fits)) in
    (
      ap (take n) (fetch-split b n v h)
          ∙ ap (λ m. take m (front ++ rest)) (sym e)
          ∙ take-length-append front rest,
      ap (drop n) (fetch-split b n v h)
          ∙ ap (λ m. drop m (front ++ rest)) (sym e)
          ∙ drop-length-append front rest,
    )

fetch_all :
    (b : RequestBody) (capacity : ℕ)
    → IsValid b
    → sub64 b.head b.tail ≤ capacity
    → (take capacity (contents b) ≡ fetch b.buffer b.tail (sub64 b.head b.tail))
      × (drop capacity (contents b)
          ≡ contents (record b { tail = add64 b.tail (sub64 b.head b.tail) }))
fetch_all b capacity v h =
    let used = sub64 b.head b.tail in
    let (t, d) = fetch_some b used v (omega arith) in
    let n = length-contents b in
    let row = contents b in
    (
      take_beyond capacity row (omega (arith, n))
          ∙ sym (take_beyond used row (omega (arith, n)))
          ∙ t,
      drop_beyond capacity row (omega (arith, n))
          ∙ sym (drop_beyond used row (omega (arith, n)))
          ∙ d,
    )

-- On a valid queue `read` does to the row of unread bytes what `fifo_read` does.
pub read-fifo :
    (b : RequestBody) (capacity : ℕ)
    → IsValid b
    → let (result, c, bytes) = read b capacity in
      (result, contents c, bytes) ≡ fifo_read (contents b) b.eof b.error capacity
unfolding read fifo_read body_used
read-fifo b capacity v = elim (le_or_lt (sub64 b.head b.tail) capacity) [
  | inl h ↦ ground (arith, length-contents b, fetch_all b capacity v h, v.used_fits)
  | inr h ↦ ground (arith, length-contents b, fetch_some b capacity v (omega arith), v.used_fits)
]

-- What a `write` with this result has taken of its source.
abbrev pub taken : WriteResult → Bytes → Bytes
taken written source = source
taken _ source = []

pub write-contents :
    (b : RequestBody) (source : Bytes)
    → IsValid b
    → contents (write b source).1 ≡ contents b ++ taken (write b source).0 source
unfolding write body_used
write-contents b [] v = ground (arith, append-nil (contents b))
write-contents b (x ∷ source) v =
    ground (arith, append-nil (contents b), contents-stored b (x ∷ source))

pub read-contents :
    (b : RequestBody) (capacity : ℕ)
    → IsValid b
    → contents b ≡ (read b capacity).2 ++ contents (read b capacity).1
unfolding read body_used
read-contents b capacity v =
    ground (arith, fetch-split b (sub64 b.head b.tail) v (omega arith), fetch-split b capacity v)
