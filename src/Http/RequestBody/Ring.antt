-- ===== src/Http/RequestBody/Ring.antt =====
-- The bytes that stand in the ring behind a counter, and what the two copies do to them.
use ckarta.Prelude.{
  ℕ, zero, suc, ◌+◌, ◌-◌, ◌%◌, ◌≤◌, ◌<◌, ◌≡◌, refl, sym, ap, ◌∙◌, [], ◌∷◌, ◌++◌, Bytes, length,
  get_or, arith, le_or_lt, inl, inr,
}
use ckarta.Http.RequestBody.{buffer_bytes, copy_in, copy_out, store, fetch}

-- The `n` bytes at the counter values `position`, `position + 1` and so on.
unfoldable pub ring : (ℕ → ℕ) → ℕ → ℕ → Bytes
ring buffer position zero = []
ring buffer position (suc n) = buffer (position % buffer_bytes) ∷ ring buffer (position + 1) n

pub length-ring : (buffer : ℕ → ℕ) (position n : ℕ) → length (ring buffer position n) ≡ n
unfolding ring
length-ring buffer position zero = refl
length-ring buffer position (suc n) = ap suc (length-ring buffer (position + 1) n)

pub ring-append :
    (buffer : ℕ → ℕ) (position m n : ℕ)
    → ring buffer position (m + n) ≡ ring buffer position m ++ ring buffer (position + m) n
unfolding ring
ring-append buffer position zero n =
    let e : 0 + n ≡ n = omega arith in
    let e' : position + 0 ≡ position = omega arith in rw (e, e') refl
ring-append buffer position (suc m) n =
    let e : suc m + n ≡ suc (m + n) = omega arith in
    let e' : position + suc m ≡ position + 1 + m = omega arith in
    rw (e, e') (ap (◌∷◌ (buffer (position % buffer_bytes))) (ring-append buffer (position + 1) m n))

-- Only the counter's value modulo the size of the buffer counts.
pub ring_wraps :
    (buffer : ℕ → ℕ) (p q n : ℕ)
    → p % buffer_bytes ≡ q % buffer_bytes
    → ring buffer p n ≡ ring buffer q n
unfolding ring
ring_wraps buffer p q zero h = refl
ring_wraps buffer p q (suc n) h =
    ap (λ i. buffer i ∷ ring buffer (p + 1) n) h
    ∙ ap (◌∷◌ (buffer (q % buffer_bytes))) (ring_wraps buffer (p + 1) (q + 1) n (omega arith))

-- Two buffers that agree on a stretch of the ring.
pub ring_agrees :
    (b c : ℕ → ℕ) (p n : ℕ)
    → ((j : ℕ) → j < n → c ((p + j) % buffer_bytes) ≡ b ((p + j) % buffer_bytes))
    → ring c p n ≡ ring b p n
unfolding ring
ring_agrees b c p zero h = refl
ring_agrees b c p (suc n) h =
    let e : p + 0 ≡ p = omega arith in
    let first : c (p % buffer_bytes) ≡ b (p % buffer_bytes) = rw (sym e) (h 0 (omega arith)) in
    let rest = ring_agrees b c (p + 1) n (λ j l. ground (arith, h (suc j) (omega arith))) in
    rw (first, rest) refl

-- A stretch of the ring that holds the bytes of a list.
pub ring_holds :
    (c : ℕ → ℕ) (p : ℕ) (xs : Bytes)
    → ((j : ℕ) → j < length xs → c ((p + j) % buffer_bytes) ≡ get_or xs j 0)
    → ring c p (length xs) ≡ xs
unfolding ring
ring_holds c p [] h = refl
ring_holds c p (x ∷ xs) h =
    let e : p + 0 ≡ p = omega arith in
    let first : c (p % buffer_bytes) ≡ x =
      ap (λ q. c (q % buffer_bytes)) (sym e) ∙ h 0 (omega arith) in
    let rest = ring_holds c (p + 1) xs (λ j l. ground (arith, h (suc j) (omega arith))) in
    rw (first, rest) refl

-- Every byte of the ring that `store` covers is the one of the source, every other is left alone.
pub store_covers :
    (buffer : ℕ → ℕ) (head : ℕ) (source : Bytes) (j : ℕ)
    → length source ≤ buffer_bytes
    → j < length source
    → store buffer head source ((head + j) % buffer_bytes) ≡ get_or source j 0
unfolding store copy_in
store_covers buffer head source j h l = ground arith

pub store_spares :
    (buffer : ℕ → ℕ) (head : ℕ) (source : Bytes) (j : ℕ)
    → length source ≤ j
    → j < buffer_bytes
    → store buffer head source ((head + j) % buffer_bytes) ≡ buffer ((head + j) % buffer_bytes)
unfolding store copy_in
store_spares buffer head source j h l = ground arith

pub copy_out-ring :
    (buffer : ℕ → ℕ) (p at n : ℕ)
    → ((j : ℕ) → j < n → (p + j) % buffer_bytes ≡ at + j)
    → copy_out buffer at n ≡ ring buffer p n
unfolding copy_out ring
copy_out-ring buffer p at zero e = refl
copy_out-ring buffer p at (suc n) e =
    let first : p % buffer_bytes ≡ at = omega (arith, e 0 (omega arith)) in
    let rest =
      copy_out-ring buffer (p + 1) (at + 1) n (λ j l. omega (arith, e (suc j) (omega arith))) in
    rw (first, rest) refl

fetch_in_one :
    (buffer : ℕ → ℕ) (tail n : ℕ)
    → n ≤ buffer_bytes - tail % buffer_bytes
    → fetch buffer tail n ≡ copy_out buffer (tail % buffer_bytes) n
unfolding fetch
fetch_in_one buffer tail n h = ground arith

fetch_in_two :
    (buffer : ℕ → ℕ) (tail n : ℕ)
    → buffer_bytes - tail % buffer_bytes < n
    → let first = buffer_bytes - tail % buffer_bytes in
      fetch buffer tail n
      ≡ copy_out buffer (tail % buffer_bytes) first ++ copy_out buffer 0 (n - first)
unfolding fetch
fetch_in_two buffer tail n h = ground arith

-- `fetch` reads a stretch of the ring.
pub fetch-ring :
    (buffer : ℕ → ℕ) (tail n : ℕ) → n ≤ buffer_bytes → fetch buffer tail n ≡ ring buffer tail n
fetch-ring buffer tail n h = elim (le_or_lt n (buffer_bytes - tail % buffer_bytes)) [
  | inl k ↦
      fetch_in_one buffer tail n k
      ∙ copy_out-ring buffer tail (tail % buffer_bytes) n (λ j l. omega arith)
  | inr k ↦
      let first = buffer_bytes - tail % buffer_bytes in
      let front = copy_out-ring buffer tail (tail % buffer_bytes) first (λ j l. omega arith) in
      let back = copy_out-ring buffer (tail + first) 0 (n - first) (λ j l. omega arith) in
      let e : n ≡ first + (n - first) = omega arith in
      fetch_in_two buffer tail n k
      ∙ rw (front, back) (sym (ap (ring buffer tail) e ∙ ring-append buffer tail first (n - first)))
]
