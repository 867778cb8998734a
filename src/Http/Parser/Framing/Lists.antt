-- ===== src/Http/Parser/Framing/Lists.antt =====
-- The value of a Content-Length field as a list of one number, and the items that the code reads.
use ckarta.Prelude.{
  ℕ, zero, suc, ◌≤◌, ◌≡◌, refl, ap, sym, ◌∙◌, Bool, true, false, not, ◌&&◌, ◌||◌, [], ◌∷◌, ◌++◌,
  Bytes, some, leb, ◌==◌, length, length-append, all, uint64_max, arith, Bool-cases, Option-cases,
  inl, inr,
}
use mathlib.Core.Path.{subst}
use ckarta.Http.Bytes.{is_empty}
use ckarta.Http.Parser.{is_ows, skip_ows, drop_end_ows, trim_ows, parse_uint64}
use ckarta.Http.Parser.Numbers.{decimal, parse_uint64_spec, parse_uint64-eq-spec, trim_ows-split}
use ckarta.Http.Parser.Framing.{list_items}
use ckarta.Http.Parser.Framing.Items.{is_length}

abbrev pub blank : ℕ → Bool
blank c = c == 0x20 || c == 0x09

abbrev pub decimal_digit : ℕ → Bool
decimal_digit c = leb 0x30 c && leb c 0x39

-- An item that is the 64-bit number `n`, in decimal digits between blanks.
pub record IsLength (n : ℕ) (item : Bytes) : Type 0 where
  pub front : Bytes
  pub digits : Bytes
  pub back : Bytes
  pub item_is : item ≡ front ++ (digits ++ back)
  pub front_blank : all blank front ≡ true
  pub back_blank : all blank back ≡ true
  pub digits_decimal : all decimal_digit digits ≡ true
  pub digits_some : is_empty digits ≡ false
  pub value_is : decimal 0 digits ≡ n
  pub fits : n ≤ uint64_max

-- A value whose items, between commas, are all the number `n`; nothing stands behind a last comma.
pub data ListOf (n : ℕ) : Bytes → Type 0 where
  nothing : ListOf n []
  only : {item : Bytes} → IsLength n item → ListOf n item
  followed : {item rest : Bytes} → IsLength n item → ListOf n rest → ListOf n (item ++ 0x2c ∷ rest)

all-append : (p : ℕ → Bool) (xs ys : Bytes) → all p (xs ++ ys) ≡ (all p xs && all p ys)
all-append p [] ys = refl
all-append p (x ∷ xs) ys = ground (arith, all-append p xs ys)

all_weaker :
    (p r : ℕ → Bool) (cs : Bytes)
    → ((c : ℕ) → p c ≡ true → r c ≡ true)
    → all p cs ≡ true
    → all r cs ≡ true
all_weaker p r [] w h = refl
all_weaker p r (c ∷ cs) w h = ground (arith, w c, all_weaker p r cs w)

ows_blank : (c : ℕ) → is_ows c ≡ true → blank c ≡ true
ows_blank c h = ground arith

blank_ows : (c : ℕ) → blank c ≡ true → is_ows c ≡ true
blank_ows c h = ground arith

-- The item is trimmed down to its digits.
skip_ows-front :
    (front xs : Bytes) (d : ℕ)
    → all blank front ≡ true
    → decimal_digit d ≡ true
    → skip_ows (front ++ d ∷ xs) ≡ d ∷ xs
unfolding skip_ows
skip_ows-front [] xs d h k = ground arith
skip_ows-front (c ∷ cs) xs d h k = ground (arith, skip_ows-front cs xs d)

drop_end_ows-blank : (back : Bytes) → all blank back ≡ true → drop_end_ows back ≡ []
unfolding drop_end_ows
drop_end_ows-blank [] h = refl
drop_end_ows-blank (c ∷ cs) h = ground (arith, drop_end_ows-blank cs)

drop_end_ows-digits :
    (digits back : Bytes)
    → all decimal_digit digits ≡ true
    → all blank back ≡ true
    → drop_end_ows (digits ++ back) ≡ digits
unfolding drop_end_ows
drop_end_ows-digits [] back h k = drop_end_ows-blank back k
drop_end_ows-digits (c ∷ cs) back h k = ground (arith, drop_end_ows-digits cs back)

trim_ows-digits :
    (front digits back : Bytes)
    → all blank front ≡ true
    → all decimal_digit digits ≡ true
    → all blank back ≡ true
    → is_empty digits ≡ false
    → trim_ows (front ++ (digits ++ back)) ≡ digits
unfolding trim_ows
trim_ows-digits front [] back h k l m = cc
trim_ows-digits front (d ∷ ds) back h k l m =
    rw (skip_ows-front front (ds ++ back) d h (ground arith))
      (drop_end_ows-digits (d ∷ ds) back k l)

IsLength-is_length : (n : ℕ) (item : Bytes) → IsLength n item → is_length n item ≡ true
IsLength-is_length n item v =
    let trimmed : trim_ows item ≡ v.digits =
      ap trim_ows v.item_is
      ∙ trim_ows-digits v.front v.digits v.back v.front_blank v.digits_decimal v.back_blank
          v.digits_some in
    let spec : parse_uint64_spec v.digits ≡ some n =
      ground (arith, v.digits_decimal, v.digits_some, v.value_is, v.fits) in
    let read : parse_uint64 (trim_ows item) ≡ some n =
      ap parse_uint64 trimmed ∙ parse_uint64-eq-spec v.digits ∙ spec in
    ground (arith, read)

is_length-IsLength : (n : ℕ) (item : Bytes) → is_length n item ≡ true → IsLength n item
is_length-IsLength n item h =
    let (front, back, e, ws, ws', clean, clean') = trim_ows-split item in
    let digits = trim_ows item in
    let same = parse_uint64-eq-spec digits in
    elim (Option-cases (parse_uint64 digits)) [
      | inl k ↦ ground arith
      | inr (v, k) ↦
          let spec : parse_uint64_spec digits ≡ some v = sym same ∙ k in
          record {
            front = front;
            digits = digits;
            back = back;
            item_is = e;
            front_blank = all_weaker is_ows blank front ows_blank ws;
            back_blank = all_weaker is_ows blank back ows_blank ws';
            digits_decimal = ground arith;
            digits_some = ground arith;
            value_is = ground arith;
            fits = ground arith;
          }
    ]

abbrev no_comma : ℕ → Bool
no_comma c = not (c == 0x2c)

blank-no_comma : (c : ℕ) → blank c ≡ true → no_comma c ≡ true
blank-no_comma c h = ground arith

digit-no_comma : (c : ℕ) → decimal_digit c ≡ true → no_comma c ≡ true
digit-no_comma c h = ground arith

IsLength-no_comma : (n : ℕ) (item : Bytes) → IsLength n item → all no_comma item ≡ true
IsLength-no_comma n item v =
    ap (all no_comma) v.item_is
    ∙ ground (
      arith,
      all-append no_comma v.front (v.digits ++ v.back),
      all-append no_comma v.digits v.back,
      all_weaker blank no_comma v.front blank-no_comma v.front_blank,
      all_weaker decimal_digit no_comma v.digits digit-no_comma v.digits_decimal,
      all_weaker blank no_comma v.back blank-no_comma v.back_blank,
    )

empty-append : (xs ys : Bytes) → is_empty ys ≡ false → is_empty (xs ++ ys) ≡ false
empty-append [] ys h = h
empty-append (x ∷ xs) ys h = refl

append-empty : (xs ys : Bytes) → is_empty xs ≡ false → is_empty (xs ++ ys) ≡ false
append-empty [] ys h = cc
append-empty (x ∷ xs) ys h = refl

IsLength-some : (n : ℕ) (item : Bytes) → IsLength n item → is_empty item ≡ false
IsLength-some n item v =
    ap is_empty v.item_is
    ∙ empty-append v.front (v.digits ++ v.back) (append-empty v.digits v.back v.digits_some)

-- How a value falls into its first item and the rest.
list_items-followed :
    (item rest : Bytes)
    → all no_comma item ≡ true
    → list_items (item ++ 0x2c ∷ rest) ≡ item ∷ list_items rest
unfolding list_items
list_items-followed [] rest h = refl
list_items-followed (c ∷ cs) rest h = ground (arith, list_items-followed cs rest)

list_items-only :
    (item : Bytes) → is_empty item ≡ false → all no_comma item ≡ true → list_items item ≡ item ∷ []
unfolding list_items
list_items-only [] e h = cc
list_items-only (c ∷ []) e h = ground arith
list_items-only (c ∷ d ∷ cs) e h = ground (arith, list_items-only (d ∷ cs) refl)

data Split : Bytes → Type 0 where
  empty : Split []
  one : {item : Bytes} → list_items item ≡ item ∷ [] → Split item
  more :
      (item rest : Bytes)
      → list_items (item ++ 0x2c ∷ rest) ≡ item ∷ list_items rest
      → Split (item ++ 0x2c ∷ rest)

grown : (c : ℕ) (cs : Bytes) → c == 0x2c ≡ false → Split cs → Split (c ∷ cs)
unfolding list_items
grown c [] h empty = one (ground arith)
grown c cs h (one e) = one (ground (arith, e))
grown c _ h (more item rest e) = more (c ∷ item) rest (ground (arith, e))

split : (value : Bytes) → Split value
unfolding list_items
split [] = empty
split (c ∷ cs) = elim (Bool-cases (c == 0x2c)) [
  | inr h ↦ grown c cs h (split cs)
  | inl h ↦
      let comma : c ≡ 0x2c = ground arith in
      subst (λ d. Split (d ∷ cs)) (sym comma) (more [] cs refl)
]

pub ListOf-items :
    (n : ℕ) {value : Bytes} → ListOf n value → all (is_length n) (list_items value) ≡ true
unfolding list_items
ListOf-items n nothing = refl
ListOf-items n (only {item} v) =
    ap (all (is_length n))
      (list_items-only item (IsLength-some n item v) (IsLength-no_comma n item v))
    ∙ ground (arith, IsLength-is_length n item v)
ListOf-items n (followed {item} {rest} v l) =
    ap (all (is_length n)) (list_items-followed item rest (IsLength-no_comma n item v))
    ∙ ground (arith, IsLength-is_length n item v, ListOf-items n l)

items-split :
    (fuel n : ℕ) (value : Bytes)
    → Split value
    → length value ≤ fuel
    → all (is_length n) (list_items value) ≡ true
    → ListOf n value
items-split fuel n _ empty h a = nothing
items-split fuel n value (one e) h a =
    let alone : all (is_length n) (value ∷ []) ≡ true = sym (ap (all (is_length n)) e) ∙ a in
    only (is_length-IsLength n value (ground arith))
items-split zero n _ (more item rest e) h a =
    let long = length-append item (0x2c ∷ rest) in ground (arith, long)
items-split (suc fuel) n _ (more item rest e) h a =
    let long = length-append item (0x2c ∷ rest) in
    let both : all (is_length n) (item ∷ list_items rest) ≡ true =
      sym (ap (all (is_length n)) e) ∙ a in
    followed (is_length-IsLength n item (ground arith))
      (items-split fuel n rest (split rest) (omega (arith, long)) (ground arith))

pub items-ListOf :
    (n : ℕ) (value : Bytes) → all (is_length n) (list_items value) ≡ true → ListOf n value
items-ListOf n value a = items-split (length value) n value (split value) (omega arith) a
