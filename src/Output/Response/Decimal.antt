-- ===== src/Output/Response/Decimal.antt =====
-- `%llu` of `snprintf`: a number in decimal, and its reading back.
use native.Mathlib.Nat.{pow-suc}
use ckarta.Prelude.{
  ℕ, zero, suc, ◌+◌, ◌-◌, ◌*◌, ◌/◌, ◌%◌, ◌^◌, ◌≤◌, ◌<◌, ◌≡◌, refl, ap, ◌∙◌, Bool, true, false, ◌&&◌,
  [], ◌∷◌, ◌++◌, Bytes, some, ltb, if◌then◌else◌, length, length-append, all, uint64_max, arith,
  le→leb, Bool-cases, inl, inr,
}
use ckarta.Http.Bytes.{is_digit, is_empty}
use ckarta.Http.Parser.{parse_uint64}
use ckarta.Http.Parser.Numbers.{decimal, parse_uint64_spec, parse_uint64-eq-spec}

-- The digits of a number below `10 ^ fuel`; 20 digits are enough for 64 bits.
unfoldable pub digits_from : ℕ → ℕ → Bytes
digits_from zero n = []
digits_from (suc fuel) n =
    let rest = digits_from fuel (n / 10) in
    if ltb n 10 then (n + b'0') ∷ [] else rest ++ (n % 10 + b'0') ∷ []

unfoldable pub digits : ℕ → Bytes
unfolding digits_from
digits n = digits_from 20 n

decimal-append :
    (value : ℕ) (xs : Bytes) (c : ℕ)
    → decimal value (xs ++ c ∷ []) ≡ decimal value xs * 10 + (c - b'0')
decimal-append value [] c = refl
decimal-append value (x ∷ xs) c = decimal-append (value * 10 + (x - b'0')) xs c

all-append : (p : ℕ → Bool) (xs ys : Bytes) → all p (xs ++ ys) ≡ (all p xs && all p ys)
all-append p [] ys = refl
all-append p (x ∷ xs) ys = ground (arith, all-append p xs ys)

pub digits_from-lem :
    (fuel n : ℕ)
    → n < 10 ^ fuel
    → (decimal 0 (digits_from fuel n) ≡ n)
      × (all is_digit (digits_from fuel n) ≡ true)
      × (length (digits_from fuel n) ≤ fuel)
unfolding digits_from
digits_from-lem zero n h = (omega arith, refl, omega arith)
digits_from-lem (suc fuel) n h =
    let small : n / 10 < 10 ^ fuel = omega (arith, pow-suc 10 fuel) in
    let (value, good, short) = digits_from-lem fuel (n / 10) small in
    let c = n % 10 + b'0' in
    elim (Bool-cases (ltb n 10)) [
      | inl one_digit ↦ rw one_digit (omega arith, ground arith, ground arith)
      | inr more ↦ rw more (
        omega (arith, decimal-append 0 (digits_from fuel (n / 10)) c, value),
        ground (arith, all-append is_digit (digits_from fuel (n / 10)) (c ∷ []), good),
        omega (arith, length-append (digits_from fuel (n / 10)) (c ∷ []), short),
      )
    ]

is_empty-snoc : (xs : Bytes) (c : ℕ) → is_empty (xs ++ c ∷ []) ≡ false
is_empty-snoc [] c = refl
is_empty-snoc (x ∷ xs) c = refl

digits_from-some : (fuel n : ℕ) → is_empty (digits_from (suc fuel) n) ≡ false
unfolding digits_from
digits_from-some fuel n = ground (arith, is_empty-snoc (digits_from fuel (n / 10)) (n % 10 + b'0'))

-- The digits are one to twenty, and each is a decimal digit.
pub digits-short :
    (n : ℕ)
    → n ≤ uint64_max
    → (all is_digit (digits n) ≡ true) × (length (digits n) ≤ 20) × (is_empty (digits n) ≡ false)
unfolding digits
digits-short n h =
    let (value, good, short) = digits_from-lem 20 n (omega arith) in
    (good, short, digits_from-some 19 n)

pub digits-value : (n : ℕ) → n ≤ uint64_max → decimal 0 (digits n) ≡ n
unfolding digits
digits-value n h = (digits_from-lem 20 n (omega arith)).0

length-digits_from :
    (fuel n : ℕ)
    → 10 ≤ n
    → length (digits_from (suc fuel) n) ≡ suc (length (digits_from fuel (n / 10)))
unfolding digits_from
length-digits_from fuel n h =
    ground (arith, length-append (digits_from fuel (n / 10)) ((n % 10 + b'0') ∷ []))

one_digit : (fuel n : ℕ) → n < 10 → length (digits_from (suc fuel) n) ≡ 1
unfolding digits_from
one_digit fuel n h = ground arith

-- A status has three digits.
pub digits-three : (n : ℕ) → 100 ≤ n → n < 1000 → length (digits n) ≡ 3
unfolding digits
digits-three n l h =
    length-digits_from 19 n (omega arith)
    ∙ ap suc (length-digits_from 18 (n / 10) (omega arith))
    ∙ ap (λ k. suc (suc k)) (one_digit 17 (n / 10 / 10) (omega arith))

parse_uint64_spec-some :
    (xs : Bytes) (n : ℕ)
    → decimal 0 xs ≡ n
    → all is_digit xs ≡ true
    → is_empty xs ≡ false
    → n ≤ uint64_max
    → parse_uint64_spec xs ≡ some n
parse_uint64_spec-some xs n value good some_digit h =
    rw (good, some_digit, value, le→leb n uint64_max h)

-- The number that the response writes with `%llu` is the one that the request parser's
-- `parse_uint64` reads back, for every 64-bit number.
pub parse_uint64-digits : (n : ℕ) → n ≤ uint64_max → parse_uint64 (digits n) ≡ some n
unfolding digits
parse_uint64-digits n h =
    let (value, good, short) = digits_from-lem 20 n (omega arith) in
    parse_uint64-eq-spec (digits_from 20 n)
    ∙ parse_uint64_spec-some (digits_from 20 n) n value good (digits_from-some 19 n) h
