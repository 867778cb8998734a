-- ===== src/Http/Parser/Framing/Items.antt =====
-- The three framing headers, each read as one list: the items of all the fields of its name.
use ckarta.Prelude.{
  ℕ, ◌≡◌, refl, ◌∙◌, Bool, true, false, not, ◌&&◌, ◌||◌, List, [], ◌∷◌, ◌++◌, Bytes, Option, none,
  some, ◌==◌, if◌then◌else◌, all, arith, Bool-cases, Option-cases, inl, inr,
}
use ckarta.Http.Bytes.{codes, is_empty}
use ckarta.Http.Parser.{Header, span_equal_ci, skip_ows, trim_ows, parse_uint64}
use ckarta.Http.Parser.Framing.{
  list_items, content_length_name, transfer_encoding_name, connection_name, content_length_items,
  content_length_from, parse_content_length_headers, transfer_encoding_items, TransferEncoding,
  transfer_encoding_from, parse_transfer_encoding_headers, connection_items, connection_from,
  parse_connection_headers,
}

-- Is there a field of that name?
abbrev pub mentions : Bytes → List Header → Bool
mentions name [] = false
mentions name (h ∷ headers) = span_equal_ci h.name name || mentions name headers

abbrev pub field_items : Bytes → List Header → List Bytes
field_items name [] = []
field_items name (h ∷ headers) =
    if span_equal_ci h.name name
    then list_items h.value ++ field_items name headers
    else field_items name headers

-- The item is a number, and that number.
abbrev pub is_length : ℕ → Bytes → Bool
is_length n item = elim (parse_uint64 (trim_ows item)) [ none ↦ false | some v ↦ n == v ]

abbrev pub is_chunked_item : Bytes → Bool
is_chunked_item item =
    not (is_empty (skip_ows item)) && span_equal_ci (trim_ows item) (codes "chunked")

abbrev pub no_items : List Bytes → Bool
no_items [] = true
no_items (item ∷ items) = false

abbrev and_then : Option (Option ℕ) → (Option ℕ → Option (Option ℕ)) → Option (Option ℕ)
and_then none f = none
and_then (some a) f = f a

content_length_items-append :
    (seen : Option ℕ) (xs ys : List Bytes)
    → content_length_items seen (xs ++ ys)
      ≡ and_then (content_length_items seen xs) (λ now. content_length_items now ys)
unfolding content_length_items
content_length_items-append seen [] ys = refl
content_length_items-append none (x ∷ xs) ys = elim (Option-cases (parse_uint64 (trim_ows x))) [
  | inl e ↦ ground arith
  | inr (v, e) ↦ rw (e, content_length_items) (content_length_items-append (some v) xs ys)
]
content_length_items-append (some c) (x ∷ xs) ys =
    ground (arith, content_length_items-append (some c) xs ys)

content_length_from-items :
    (seen : Option ℕ) (headers : List Header)
    → content_length_from seen headers
      ≡ content_length_items seen (field_items content_length_name headers)
unfolding content_length_from
content_length_from-items seen [] = refl
content_length_from-items seen (h ∷ headers) =
    elim (Bool-cases (span_equal_ci h.name content_length_name)) [
      | inr other ↦ ground (arith, content_length_from-items seen headers)
      | inl named ↦ elim (Option-cases (content_length_items seen (list_items h.value))) [
        | inl e ↦ ground (
          arith,
          content_length_items-append seen (list_items h.value)
              (field_items content_length_name headers),
        )
        | inr (now, e) ↦ ground (
          arith,
          content_length_items-append seen (list_items h.value)
              (field_items content_length_name headers),
          content_length_from-items now headers,
        )
      ]
    ]

content_length_items-some :
    (c : ℕ) (items : List Bytes)
    → content_length_items (some c) items
      ≡ (if all (is_length c) items then some (some c) else none)
unfolding content_length_items
content_length_items-some c [] = refl
content_length_items-some c (x ∷ xs) = ground (arith, content_length_items-some c xs)

-- A list of items is a length if there are none, or if they are one number, however it is written.
abbrev pub length_of_items : List Bytes → Option (Option ℕ)
length_of_items [] = some none
length_of_items (item ∷ items) = elim (parse_uint64 (trim_ows item)) [
  | none ↦ none
  | some n ↦ if all (is_length n) items then some (some n) else none
]

content_length_items-none :
    (items : List Bytes) → content_length_items none items ≡ length_of_items items
unfolding content_length_items
content_length_items-none [] = refl
content_length_items-none (item ∷ items) = elim (Option-cases (parse_uint64 (trim_ows item))) [
  | inl e ↦ ground arith
  | inr (n, e) ↦ ground (arith, content_length_items-some n items)
]

-- All Content-Length fields of a head count as one comma-separated list. There is no length if the
-- list is empty; it is accepted if every item is a decimal 64-bit number and all are the same
-- number, which is then the length; otherwise it is refused.
pub parse_content_length_headers-items :
    (headers : List Header)
    → parse_content_length_headers headers
      ≡ length_of_items (field_items content_length_name headers)
unfolding parse_content_length_headers
parse_content_length_headers-items headers =
    content_length_from-items none headers
    ∙ content_length_items-none (field_items content_length_name headers)

transfer_encoding_items-all :
    (chunked : Bool) (items : List Bytes)
    → transfer_encoding_items chunked items
      ≡ (if all is_chunked_item items then some (chunked || not (no_items items)) else none)
unfolding transfer_encoding_items
transfer_encoding_items-all chunked [] = ground arith
transfer_encoding_items-all chunked (x ∷ xs) = ground (arith, transfer_encoding_items-all true xs)

pub all-append {ℓ} :
    {A : Type ℓ} (p : A → Bool) (xs ys : List A) → all p (xs ++ ys) ≡ (all p xs && all p ys)
all-append p [] ys = refl
all-append p (x ∷ xs) ys = ground (arith, all-append p xs ys)

pub no_items-append : (xs ys : List Bytes) → no_items (xs ++ ys) ≡ (no_items xs && no_items ys)
no_items-append [] ys = refl
no_items-append (x ∷ xs) ys = refl

transfer_encoding_from-items :
    (t : TransferEncoding) (headers : List Header)
    → let items = field_items transfer_encoding_name headers in
      transfer_encoding_from t headers ≡ (
        if all is_chunked_item items
        then some (record {
          present = t.present || mentions transfer_encoding_name headers;
          is_chunked = t.is_chunked || not (no_items items);
        })
        else none)
unfolding transfer_encoding_from
transfer_encoding_from-items t [] = ground arith
transfer_encoding_from-items t (h ∷ headers) =
    elim (Bool-cases (span_equal_ci h.name transfer_encoding_name)) [
      | inr other ↦ ground (arith, transfer_encoding_from-items t headers)
      | inl named ↦ ground (
        arith,
        transfer_encoding_items-all t.is_chunked (list_items h.value),
        all-append is_chunked_item (list_items h.value)
            (field_items transfer_encoding_name headers),
        no_items-append (list_items h.value) (field_items transfer_encoding_name headers),
        transfer_encoding_from-items
            (record {
              present = true;
              is_chunked = t.is_chunked || not (no_items (list_items h.value));
            })
            headers,
      )
    ]

-- All Transfer-Encoding fields of a head count as one comma-separated list. It is accepted exactly
-- if every item is `chunked` in any case; `present` tells that there is a field of that name, and
-- `is_chunked` that there is an item.
pub parse_transfer_encoding_headers-items :
    (headers : List Header)
    → let items = field_items transfer_encoding_name headers in
      parse_transfer_encoding_headers headers ≡ (
        if all is_chunked_item items
        then some (record {
          present = mentions transfer_encoding_name headers;
          is_chunked = not (no_items items);
        })
        else none)
unfolding parse_transfer_encoding_headers
parse_transfer_encoding_headers-items headers =
    transfer_encoding_from-items (record { present = false; is_chunked = false }) headers

abbrev pub is_blank_item : Bytes → Bool
is_blank_item item = is_empty (skip_ows item)

abbrev pub is_close_item : Bytes → Bool
is_close_item item = span_equal_ci (trim_ows item) (codes "close")

abbrev pub any {ℓ} : {A : Type ℓ} → (A → Bool) → List A → Bool
any p [] = false
any p (x ∷ xs) = p x || any p xs

any-append {ℓ} :
    {A : Type ℓ} (p : A → Bool) (xs ys : List A) → any p (xs ++ ys) ≡ (any p xs || any p ys)
any-append p [] ys = refl
any-append p (x ∷ xs) ys = ground (arith, any-append p xs ys)

connection_items-any :
    (close : Bool) (items : List Bytes)
    → connection_items close items
      ≡ (if any is_blank_item items then none else some (close || any is_close_item items))
unfolding connection_items
connection_items-any close [] = ground arith
connection_items-any close (x ∷ xs) =
    ground (arith, connection_items-any close xs, connection_items-any true xs)

connection_from-items :
    (close : Bool) (headers : List Header)
    → let items = field_items connection_name headers in
      connection_from close headers
      ≡ (if any is_blank_item items then none else some (close || any is_close_item items))
unfolding connection_from
connection_from-items close [] = ground arith
connection_from-items close (h ∷ headers) =
    elim (Bool-cases (span_equal_ci h.name connection_name)) [
      | inr other ↦ ground (arith, connection_from-items close headers)
      | inl named ↦ ground (
        arith,
        connection_items-any close (list_items h.value),
        any-append is_blank_item (list_items h.value) (field_items connection_name headers),
        any-append is_close_item (list_items h.value) (field_items connection_name headers),
        connection_from-items (close || any is_close_item (list_items h.value)) headers,
      )
    ]

-- All Connection fields of a head count as one comma-separated list. It is refused exactly if an
-- item is blank, and asks for a close exactly if an item is `close` in any case.
pub parse_connection_headers-items :
    (headers : List Header)
    → let items = field_items connection_name headers in
      parse_connection_headers headers
      ≡ (if any is_blank_item items then none else some (any is_close_item items))
unfolding parse_connection_headers
parse_connection_headers-items headers = connection_from-items false headers
