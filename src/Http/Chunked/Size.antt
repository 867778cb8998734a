-- ===== src/Http/Chunked/Size.antt =====
-- `parse_chunk_size` against the chunk-size grammar over unbounded numbers.
use ckarta.Prelude.{
  ℕ, suc, refl, all, ◌∙◌, ◌+◌, ◌*◌, ◌≤◌, ◌<◌, ◌≡◌, Bool, true, false, not, ◌&&◌, ◌||◌, [], ◌∷◌,
  Bytes, Option, none, some, leb, ◌==◌, if◌then◌else◌, uint64_max, arith, Option-cases, inl, inr,
  Bool-cases,
}
use ckarta.Http.Bytes.{codes, is_empty}
use ckarta.Http.Chunked.{hex_value, next_size, valid_extension, parse_size_from, parse_chunk_size}

-- Where a byte stands in a row that starts at place `n`.
abbrev place : ℕ → ℕ → Bytes → Option ℕ
place c n [] = none
place c n (x ∷ xs) = let rest = place c (suc n) xs in if c == x then some n else rest

-- The value of a hexadecimal digit is its place in one of the rows of sixteen.
abbrev pub hex_digit : ℕ → Option ℕ
hex_digit c = elim (place c 0 (codes "0123456789ABCDEF")) [
  | none ↦ place c 0 (codes "0123456789abcdef")
  | some digit ↦ some digit
]

-- The value of a row of hexadecimal digits behind the digits of `value`, however long.
abbrev pub hex_number : ℕ → Bytes → Option ℕ
hex_number value [] = some value
hex_number value (c ∷ cs) = elim (hex_digit c) [
  | none ↦ none
  | some digit ↦ hex_number (value * 16 + digit) cs
]

-- The digits of a line, up to its first `;`.
abbrev pub size_digits : Bytes → Bytes
size_digits [] = []
size_digits (c ∷ cs) = if c == b';' then [] else c ∷ size_digits cs

-- What stands behind the first `;`.
abbrev pub size_extension : Bytes → Bytes
size_extension [] = []
size_extension (c ∷ cs) = if c == b';' then cs else size_extension cs

-- An extension has no byte below the blank but TAB, and no DEL.
abbrev pub extension_byte : ℕ → Bool
extension_byte c = c == 0x09 || leb 0x20 c && not (c == 0x7f)

abbrev fits : Option ℕ → Option ℕ
fits none = none
fits (some n) = if leb n uint64_max then some n else none

-- chunk-size [ ";" extension ]: at least one digit, and a value that 64 bits hold.
abbrev pub chunk_size_spec : Bytes → Option ℕ
chunk_size_spec line =
    if not (is_empty (size_digits line)) && all extension_byte (size_extension line)
    then fits (hex_number 0 (size_digits line))
    else none

hex_value-hex_digit : (c : ℕ) → hex_value c ≡ hex_digit c
unfolding hex_value
hex_value-hex_digit c = ground arith

valid_extension-bytes : (cs : Bytes) → valid_extension cs ≡ all extension_byte cs
unfolding valid_extension
valid_extension-bytes [] = refl
valid_extension-bytes (c ∷ cs) = ground (arith, valid_extension-bytes cs)

hex_digit-lt : (c digit : ℕ) → hex_digit c ≡ some digit → digit < 16
unfolding hex_value
hex_digit-lt c digit e =
    let f : hex_value c ≡ some digit = hex_value-hex_digit c ∙ e in ground arith

hex_number-ge : (value : ℕ) (cs : Bytes) (n : ℕ) → hex_number value cs ≡ some n → value ≤ n
hex_number-ge value [] n e = ground arith
hex_number-ge value (c ∷ cs) n e = elim (Option-cases (hex_digit c)) [
  | inl h ↦ ground arith
  | inr (digit, h) ↦ ground (arith, hex_number-ge (value * 16 + digit) cs n)
]

-- Once the value is too large it stays so.
fits-too_large : (value : ℕ) (cs : Bytes) → uint64_max < value → fits (hex_number value cs) ≡ none
fits-too_large value cs h = elim (Option-cases (hex_number value cs)) [
  | inl e ↦ rw e
  | inr (n, e) ↦ rw e (ground (arith, hex_number-ge value cs n e))
]

-- The guard of the loop lets through exactly the values that do not wrap.
next_size_lem :
    (value digit : ℕ)
    → digit < 16
    → value ≤ uint64_max
    → next_size value digit
      ≡ (if leb (value * 16 + digit) uint64_max then some (value * 16 + digit) else none)
unfolding next_size
next_size_lem value digit h k = ground arith

abbrev size_or_none : Bool → ℕ → Bytes → Option ℕ
size_or_none digits value cs =
    if (digits || not (is_empty (size_digits cs))) && all extension_byte (size_extension cs)
    then fits (hex_number value (size_digits cs))
    else none

parse_size_from-size_or_none :
    (digits : Bool) (value : ℕ) (cs : Bytes)
    → value ≤ uint64_max
    → parse_size_from digits value cs ≡ size_or_none digits value cs
unfolding parse_size_from
parse_size_from-size_or_none digits value [] k = ground arith
parse_size_from-size_or_none digits value (c ∷ cs) k = elim (Bool-cases (c == b';')) [
  | inl sep ↦ ground (arith, valid_extension-bytes cs)
  | inr h ↦ elim (Option-cases (hex_digit c)) [
    | inl e ↦ ground (arith, hex_value-hex_digit c)
    | inr (digit, e) ↦ ground (
      arith,
      hex_value-hex_digit c,
      hex_digit-lt c digit e,
      next_size_lem value digit,
      fits-too_large (value * 16 + digit) (size_digits cs),
      parse_size_from-size_or_none true (value * 16 + digit) cs,
    )
  ]
]

-- `parse_chunk_size` accepts a line exactly if it has one or more hexadecimal digits, of either
-- case, whose value is at most UINT64_MAX, followed by nothing or by `;` and an extension without
-- DEL and without bytes below the blank other than TAB; it then returns that value. No arithmetic
-- of the loop wraps on the way.
pub parse_chunk_size-eq-spec : (line : Bytes) → parse_chunk_size line ≡ chunk_size_spec line
unfolding parse_chunk_size
parse_chunk_size-eq-spec line = parse_size_from-size_or_none false 0 line (omega arith)

-- An accepted size is a 64-bit number.
pub parse_chunk_size-le : (line : Bytes) (n : ℕ) → parse_chunk_size line ≡ some n → n ≤ uint64_max
parse_chunk_size-le line n e = ground (arith, parse_chunk_size-eq-spec line)
