-- ===== src/Http/Parser/Numbers.antt =====
-- `parse_uint64` against decimal notation over unbounded numbers, and what `trim_ows` takes off.
use ckarta.Prelude.{
  ℕ, ◌+◌, ◌-◌, ◌*◌, ◌≤◌, ◌<◌, ◌≡◌, refl, ap, ◌∙◌, Bool, true, false, not, ◌&&◌, [], ◌∷◌, ◌++◌,
  Bytes, Option, none, some, leb, if◌then◌else◌, all, uint64_max, arith, Bool-cases, inl, inr,
}
use ckarta.Http.Bytes.{is_digit, is_empty}
use ckarta.Http.Parser.{
  is_ows, skip_ows, drop_end_ows, trim_ows, next_decimal, uint64_from, parse_uint64,
}

-- The value of a row of decimal digits behind the digits of `value`, however long.
abbrev pub decimal : ℕ → Bytes → ℕ
decimal value [] = value
decimal value (c ∷ cs) = decimal (value * 10 + (c - b'0')) cs

abbrev pub parse_uint64_spec : Bytes → Option ℕ
parse_uint64_spec span =
    if not (is_empty span) && all is_digit span && leb (decimal 0 span) uint64_max
    then some (decimal 0 span)
    else none

decimal-ge : (value : ℕ) (cs : Bytes) → value ≤ decimal value cs
decimal-ge value [] = omega arith
decimal-ge value (c ∷ cs) = omega (arith, decimal-ge (value * 10 + (c - b'0')) cs)

-- The guard of the loop lets through exactly the values that do not wrap.
next_decimal_lem :
    (value digit : ℕ)
    → digit < 10
    → value ≤ uint64_max
    → next_decimal value digit
      ≡ (if leb (value * 10 + digit) uint64_max then some (value * 10 + digit) else none)
unfolding next_decimal
next_decimal_lem value digit h k = ground arith

uint64_from-decimal :
    (value : ℕ) (cs : Bytes)
    → value ≤ uint64_max
    → uint64_from value cs ≡ (
        if all is_digit cs && leb (decimal value cs) uint64_max
        then some (decimal value cs)
        else none)
unfolding uint64_from
uint64_from-decimal value [] k = ground arith
uint64_from-decimal value (c ∷ cs) k = elim (Bool-cases (is_digit c)) [
  | inl h ↦ ground (
    arith,
    next_decimal_lem value (c - b'0'),
    decimal-ge (value * 10 + (c - b'0')) cs,
    uint64_from-decimal (value * 10 + (c - b'0')) cs,
  )
  | inr h ↦ ground arith
]

-- `parse_uint64` accepts a span exactly if it is a row of one or more decimal digits whose value
-- is at most UINT64_MAX, and returns that value. No arithmetic of the loop wraps on the way.
pub parse_uint64-eq-spec : (span : Bytes) → parse_uint64 span ≡ parse_uint64_spec span
unfolding parse_uint64
parse_uint64-eq-spec span = ground (arith, uint64_from-decimal 0 span)

-- No optional whitespace at the start, or at the end.
abbrev pub starts_clean : Bytes → Bool
starts_clean [] = true
starts_clean (c ∷ cs) = not (is_ows c)

abbrev pub ends_clean : Bytes → Bool
ends_clean [] = true
ends_clean (c ∷ []) = not (is_ows c)
ends_clean (c ∷ d ∷ cs) = ends_clean (d ∷ cs)

pub skip_ows-split :
    (span : Bytes)
    → (front : Bytes) × (span ≡ front ++ skip_ows span)
      × (all is_ows front ≡ true)
      × (starts_clean (skip_ows span) ≡ true)
unfolding skip_ows
skip_ows-split [] = ([], refl, refl, refl)
skip_ows-split (c ∷ cs) = elim (Bool-cases (is_ows c)) [
  | inl h ↦
      let (front, e, ws, clean) = skip_ows-split cs in
      (c ∷ front, ground arith, ground arith, ground arith)
  | inr h ↦ ([], ground arith, ground arith, ground arith)
]

pub is_empty-nil : (cs : Bytes) → is_empty cs ≡ true → cs ≡ []
is_empty-nil [] h = refl
is_empty-nil (c ∷ cs) h = cc

ends_clean-cons :
    (c : ℕ) (cs : Bytes)
    → ends_clean cs ≡ true
    → (is_ows c && is_empty cs) ≡ false
    → ends_clean (c ∷ cs) ≡ true
ends_clean-cons c [] h k = ground arith
ends_clean-cons c (d ∷ cs) h k = h

pub drop_end_ows-split :
    (span : Bytes)
    → (back : Bytes) × (span ≡ drop_end_ows span ++ back)
      × (all is_ows back ≡ true)
      × (ends_clean (drop_end_ows span) ≡ true)
unfolding drop_end_ows
drop_end_ows-split [] = ([], refl, refl, refl)
drop_end_ows-split (c ∷ cs) =
    let (back, e, ws, clean) = drop_end_ows-split cs in
    elim (Bool-cases (is_ows c && is_empty (drop_end_ows cs))) [
      | inl h ↦
          let nothing : drop_end_ows cs ≡ [] = is_empty-nil (drop_end_ows cs) (ground arith) in
          (c ∷ back, rw h (ap (◌∷◌ c) (e ∙ ap (λ left. left ++ back) nothing)), ground arith, rw h)
      | inr h ↦ (back, rw h (ap (◌∷◌ c) e), ws, rw h (ends_clean-cons c (drop_end_ows cs) clean h))
    ]

starts_clean-drop_end :
    (span : Bytes) → starts_clean span ≡ true → starts_clean (drop_end_ows span) ≡ true
unfolding drop_end_ows
starts_clean-drop_end [] h = refl
starts_clean-drop_end (c ∷ cs) h = ground arith

-- `trim_ows` leaves a stretch of the span that neither starts nor ends with a blank or TAB, and
-- takes only blanks and TABs off at the two ends.
pub trim_ows-split :
    (span : Bytes)
    → (front back : Bytes) × (span ≡ front ++ (trim_ows span ++ back))
      × (all is_ows front ≡ true)
      × (all is_ows back ≡ true)
      × (starts_clean (trim_ows span) ≡ true)
      × (ends_clean (trim_ows span) ≡ true)
unfolding trim_ows
trim_ows-split span =
    let (front, e, ws, clean) = skip_ows-split span in
    let (back, e', ws', clean') = drop_end_ows-split (skip_ows span) in
    (
      front,
      back,
      e ∙ ap (◌++◌ front) e',
      ws,
      ws',
      starts_clean-drop_end (skip_ows span) clean,
      clean',
    )
