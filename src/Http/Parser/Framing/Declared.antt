-- ===== src/Http/Parser/Framing/Declared.antt =====
-- What the Content-Length fields of a head declare, said without the code that reads them.
use ckarta.Prelude.{
  ℕ, ◌+◌, ◌≡◌, refl, ap, sym, ◌∙◌, Bool, true, false, not, ◌&&◌, List, [], ◌∷◌, ◌++◌, Bytes, Option,
  none, some, leb, if◌then◌else◌, all, arith, Bool-cases, Option-cases, inl, inr, if_split,
}
use mathlib.Core.Path.{subst}
use ckarta.Http.Bytes.{codes, is_empty}
use ckarta.Http.Parser.{Header, to_lower, span_equal_ci, trim_ows, parse_uint64}
use ckarta.Http.Parser.Numbers.{is_empty-nil}
use ckarta.Http.Parser.Framing.{list_items, content_length_name, parse_content_length_headers}
use ckarta.Http.Parser.Framing.Lists.{ListOf, ListOf-items, items-ListOf}
use ckarta.Http.Parser.Framing.Items.{
  field_items, is_length, length_of_items, no_items, no_items-append, all-append,
  parse_content_length_headers-items,
}

abbrev pub lower : ℕ → ℕ
lower c = if leb 0x41 c && leb c 0x5a then c + 0x20 else c

abbrev pub lowered : Bytes → Bytes
lowered [] = []
lowered (c ∷ cs) = lower c ∷ lowered cs

abbrev pub IsNamed : Header → Type 0
IsNamed h = lowered h.name ≡ codes "content-length"

-- The fields of that name, in any case of its letters, are lists of `n`; the flag tells whether one
-- of them has a value.
pub data Fields (n : ℕ) : Bool → List Header → Type 0 where
  no_field : Fields n false []
  other :
      {h : Header} {headers : List Header} {b : Bool}
      → (IsNamed h → ⊥)
      → Fields n b headers
      → Fields n b (h ∷ headers)
  blank_field :
      {h : Header} {headers : List Header} {b : Bool}
      → IsNamed h
      → h.value ≡ []
      → Fields n b headers
      → Fields n b (h ∷ headers)
  lists :
      {h : Header} {headers : List Header} {b : Bool}
      → IsNamed h
      → is_empty h.value ≡ false
      → ListOf n h.value
      → Fields n b headers
      → Fields n true (h ∷ headers)

-- What is read from the headers: no length, a length, or an error.
pub data Reads (headers : List Header) : Option (Option ℕ) → Type 0 where
  absent : Fields 0 false headers → Reads headers (some none)
  declared : (n : ℕ) → Fields n true headers → Reads headers (some (some n))
  refused : ((n : ℕ) (b : Bool) → Fields n b headers → ⊥) → Reads headers none

named-lowered : (a b : Bytes) → span_equal_ci a b ≡ true → lowered a ≡ lowered b
unfolding span_equal_ci to_lower
named-lowered [] [] h = refl
named-lowered [] (d ∷ b) h = cc
named-lowered (c ∷ a) [] h = cc
named-lowered (c ∷ a) (d ∷ b) h =
    let same : lower c ≡ lower d = ground arith in
    let rest : lowered a ≡ lowered b = named-lowered a b (ground arith) in cc

lowered-named : (a b : Bytes) → lowered a ≡ lowered b → span_equal_ci a b ≡ true
unfolding span_equal_ci to_lower
lowered-named [] [] h = refl
lowered-named [] (d ∷ b) h = ground arith
lowered-named (c ∷ a) [] h = ground arith
lowered-named (c ∷ a) (d ∷ b) h =
    let (same, rest) = cons_same h in ground (arith, same, lowered-named a b rest)
  where
    cons_same : {x y : ℕ} {xs ys : Bytes} → x ∷ xs ≡ y ∷ ys → (x ≡ y) × (xs ≡ ys)
    cons_same e = ground arith

IsNamed-span : (h : Header) → IsNamed h → span_equal_ci h.name content_length_name ≡ true
IsNamed-span h e = lowered-named h.name content_length_name e

span-IsNamed : (h : Header) → span_equal_ci h.name content_length_name ≡ true → IsNamed h
span-IsNamed h e = named-lowered h.name content_length_name e

other_name : (h : Header) → (IsNamed h → ⊥) → span_equal_ci h.name content_length_name ≡ false
other_name h f = elim (Bool-cases (span_equal_ci h.name content_length_name)) [
  | inl e ↦ elim (f (span-IsNamed h e)) [ ]
  | inr e ↦ e
]

items_named :
    (h : Header) (headers : List Header)
    → IsNamed h
    → field_items content_length_name (h ∷ headers)
      ≡ list_items h.value ++ field_items content_length_name headers
items_named h headers e = rw (IsNamed-span h e) refl

items_other :
    (h : Header) (headers : List Header)
    → span_equal_ci h.name content_length_name ≡ false
    → field_items content_length_name (h ∷ headers) ≡ field_items content_length_name headers
items_other h headers e = rw e refl

-- All items of the fields are the number.
Fields-items :
    (n : ℕ) {b : Bool} {headers : List Header}
    → Fields n b headers
    → all (is_length n) (field_items content_length_name headers) ≡ true
unfolding list_items
Fields-items n no_field = refl
Fields-items n (other {h} {headers} f rest) =
    ap (all (is_length n)) (items_other h headers (other_name h f)) ∙ Fields-items n rest
Fields-items n (blank_field {h} {headers} e v rest) =
    ap (all (is_length n)) (
      items_named h headers e ∙ ap (λ x. list_items x ++ field_items content_length_name headers) v)
    ∙ Fields-items n rest
Fields-items n (lists {h} {headers} e v l rest) =
    ap (all (is_length n)) (items_named h headers e)
    ∙ all-append (is_length n) (list_items h.value) (field_items content_length_name headers)
    ∙ ground (arith, ListOf-items n l, Fields-items n rest)

no_items-list : (value : Bytes) → no_items (list_items value) ≡ is_empty value
unfolding list_items
no_items-list [] = refl
no_items-list (c ∷ cs) = ground arith

behind_value :
    (n : ℕ) (h : Header) (headers : List Header) (left : List Bytes)
    → IsNamed h
    → all (is_length n) (list_items h.value) ≡ true
    → Fields n (not (no_items left)) headers
    → Fields n (not (no_items (list_items h.value ++ left))) (h ∷ headers)
unfolding list_items
behind_value n h headers left named l rest = elim (Bool-cases (is_empty h.value)) [
  | inl v ↦
      let nil = is_empty-nil h.value v in
      subst (λ x. Fields n (not (no_items (list_items x ++ left))) (h ∷ headers)) (sym nil)
        (blank_field named nil rest)
  | inr v ↦
      let some_items : no_items (list_items h.value ++ left) ≡ false =
        ground (arith, no_items-append (list_items h.value) left, no_items-list h.value, v) in
      subst (λ b. Fields n (not b) (h ∷ headers)) (sym some_items)
        (lists named v (items-ListOf n h.value l) rest)
]

-- Fields whose items are all the number are lists of it.
items-Fields :
    (n : ℕ) (headers : List Header)
    → all (is_length n) (field_items content_length_name headers) ≡ true
    → Fields n (not (no_items (field_items content_length_name headers))) headers
items-Fields n [] a = no_field
items-Fields n (h ∷ headers) a = elim (Bool-cases (span_equal_ci h.name content_length_name)) [
  | inr e ↦
      let same = items_other h headers e in
      subst (λ items. Fields n (not (no_items items)) (h ∷ headers)) (sym same)
        (other (λ f. not_both (sym e ∙ IsNamed-span h f))
          (items-Fields n headers (ap (all (is_length n)) (sym same) ∙ a)))
  | inl e ↦
      let named = span-IsNamed h e in
      let left = field_items content_length_name headers in
      let same = items_named h headers named in
      let both =
        sym (all-append (is_length n) (list_items h.value) left)
        ∙ ap (all (is_length n)) (sym same)
        ∙ a in
      let rest =
        items-Fields n headers
          (second_true (all (is_length n) (list_items h.value)) (all (is_length n) left) both) in
      subst (λ items. Fields n (not (no_items items)) (h ∷ headers)) (sym same)
        (behind_value n h headers left named
          (first_true (all (is_length n) (list_items h.value)) (all (is_length n) left) both) rest)
]
  where
    not_both : false ≡ true → ⊥
    not_both e = cc

    first_true : (p r : Bool) → (p && r) ≡ true → p ≡ true
    first_true p r e = ground arith

    second_true : (p r : Bool) → (p && r) ≡ true → r ≡ true
    second_true p r e = ground arith

length-Reads :
    (headers : List Header) (items : List Bytes)
    → items ≡ field_items content_length_name headers
    → Reads headers (length_of_items items)
length-Reads headers [] e = absent (
    subst (λ x. Fields 0 (not (no_items x)) headers) (sym e)
      (items-Fields 0 headers (ap (all (is_length 0)) (sym e))))
length-Reads headers (item ∷ items) e = elim (Option-cases (parse_uint64 (trim_ows item))) [
  | inl k ↦
      let read : length_of_items (item ∷ items) ≡ none = ground (arith, k) in
      subst (Reads headers) (sym read) (
        refused λ n b f.
          let a : all (is_length n) (item ∷ items) ≡ true =
            ap (all (is_length n)) e ∙ Fields-items n f in
          ground (arith, a, k))
  | inr (v, k) ↦
      let read : length_of_items (item ∷ items)
          ≡ (if all (is_length v) items then some (some v) else none) =
        ground (arith, k) in
      subst (Reads headers) (sym read) (
        if_split (Reads headers) (all (is_length v) items)
          (λ a. declared v (
            subst (λ x. Fields v (not (no_items x)) headers) (sym e)
              (items-Fields v headers (ap (all (is_length v)) (sym e) ∙ ground (arith, a, k)))))
          (λ a. refused λ n b f.
            let good : all (is_length n) (item ∷ items) ≡ true =
              ap (all (is_length n)) e ∙ Fields-items n f in
            let same : n ≡ v = ground (arith, good, k) in
            let rest : all (is_length v) items ≡ true =
              subst (λ m. all (is_length m) items ≡ true) same (ground (arith, good)) in
            ground (arith, a, rest)))
]

-- What `parse_content_length_headers` makes of the fields named Content-Length, in any case of the
-- letters. There is no length if none of them has a value. It is `n` if at least one has a value
-- and every value is a comma-separated list of items that are all `n`, in decimal digits between
-- blanks and at most UINT64_MAX; an empty value and a comma at the end of a value are let through.
-- It is an error exactly if neither holds.
pub parse_content_length_headers-Reads :
    (headers : List Header) → Reads headers (parse_content_length_headers headers)
parse_content_length_headers-Reads headers =
    subst (Reads headers) (sym (parse_content_length_headers-items headers))
      (length-Reads headers (field_items content_length_name headers) refl)
