-- ===== src/Http/Parser/Block/Form.antt =====
-- The form of a request head, said without the code that checks it.
use ckarta.Prelude.{
  ℕ, not, ◌||◌, ◌==◌, ◌≤◌, ◌≡◌, refl, Bool, true, false, ◌&&◌, List, [], ◌∷◌, Bytes, leb, length,
  all, arith,
}
use ckarta.Http.Bytes.{codes, is_tchar, is_empty}
use ckarta.Http.Bytes.Tchar.{in_token_ranges, is_tchar-ranges}
use ckarta.Http.Parser.{
  Header, Request, RequestLine, is_target_byte, http_version, max_method_bytes, max_target_bytes,
  max_header_value_bytes,
}
use ckarta.Http.Parser.Numbers.{starts_clean, ends_clean}
use ckarta.Http.Parser.Block.{name_valid}

-- What the parser checks of a header.
abbrev pub header_ok : Header → Bool
header_ok h =
    name_valid h.name
    && leb (length h.value) max_header_value_bytes
    && starts_clean h.value
    && ends_clean h.value

pub record LineIsWellFormed (l : RequestLine) : Type 0 where
  pub method_some : is_empty l.method ≡ false
  pub method_short : length l.method ≤ max_method_bytes
  pub method_token : all is_tchar l.method ≡ true
  pub target_some : is_empty l.target ≡ false
  pub target_short : length l.target ≤ max_target_bytes
  pub target_bytes : all is_target_byte l.target ≡ true
  pub version_is : l.version ≡ http_version

-- The bytes of a token, or 0.
abbrev pub token_byte : ℕ → Bool
token_byte c = in_token_ranges c || c == 0

-- Neither a blank nor a TAB.
abbrev pub not_blank : ℕ → Bool
not_blank c = not (c == 0x20 || c == 0x09)

abbrev pub last_or : ℕ → Bytes → ℕ
last_or c [] = c
last_or c (d ∷ cs) = last_or d cs

-- No blank at the two ends; a value may be empty.
abbrev pub clean_ends : Bytes → Bool
clean_ends [] = true
clean_ends (c ∷ cs) = not_blank c && not_blank (last_or c cs)

pub record HeaderIsWellFormed (h : Header) : Type 0 where
  pub name_some : 1 ≤ length h.name
  pub name_short : length h.name ≤ 256
  pub name_token : all token_byte h.name ≡ true
  pub value_short : length h.value ≤ 16384
  pub value_clean : clean_ends h.value ≡ true

pub data AllWellFormed : List Header → Type 0 where
  no_header : AllWellFormed []
  one_more :
      {h : Header} {headers : List Header}
      → HeaderIsWellFormed h
      → AllWellFormed headers
      → AllWellFormed (h ∷ headers)

pub record IsWellFormed (q : Request) : Type 0 where
  pub method_some : 1 ≤ length q.method
  pub method_short : length q.method ≤ 32
  pub method_token : all token_byte q.method ≡ true
  pub target_some : 1 ≤ length q.target
  pub target_short : length q.target ≤ 8192
  pub target_bytes : all (λ c. leb 0x21 c && not (c == 0x7f)) q.target ≡ true
  pub version_is : q.version ≡ codes "HTTP/1.1"
  pub few_headers : length q.headers ≤ 128
  pub headers_ok : AllWellFormed q.headers

pub some_byte : (cs : Bytes) → is_empty cs ≡ false → 1 ≤ length cs
some_byte [] e = cc
some_byte (c ∷ cs) e = omega arith

pub all_same :
    (p r : ℕ → Bool) (cs : Bytes) → ((c : ℕ) → p c ≡ r c) → all p cs ≡ true → all r cs ≡ true
all_same p r [] same h = refl
all_same p r (c ∷ cs) same h = ground (arith, same c, all_same p r cs same)

pub target_byte : (c : ℕ) → is_target_byte c ≡ (leb 0x21 c && not (c == 0x7f))
unfolding is_target_byte
target_byte c = ground arith

ends_at_last : (c : ℕ) (cs : Bytes) → ends_clean (c ∷ cs) ≡ true → not_blank (last_or c cs) ≡ true
ends_at_last c [] h = ground arith
ends_at_last c (d ∷ cs) h = ends_at_last d cs h

ends_are_clean : (cs : Bytes) → starts_clean cs ≡ true → ends_clean cs ≡ true → clean_ends cs ≡ true
ends_are_clean [] h k = refl
ends_are_clean (c ∷ cs) h k = ground (arith, ends_at_last c cs k)

header-HeaderIsWellFormed : (h : Header) → header_ok h ≡ true → HeaderIsWellFormed h
unfolding name_valid
header-HeaderIsWellFormed h e = record {
  name_some = some_byte h.name (ground arith);
  name_short = ground arith;
  name_token = all_same is_tchar token_byte h.name is_tchar-ranges (ground arith);
  value_short = ground arith;
  value_clean = ends_are_clean h.value (ground arith) (ground arith);
}

pub headers-AllWellFormed : (hs : List Header) → all header_ok hs ≡ true → AllWellFormed hs
headers-AllWellFormed [] e = no_header
headers-AllWellFormed (h ∷ hs) e =
    one_more (header-HeaderIsWellFormed h (ground arith)) (headers-AllWellFormed hs (ground arith))
