-- ===== src/Http/Parser/Block/WellFormed.antt =====
-- What a request that `parse_header_block` accepts looks like.
use ckarta.Prelude.{
  ℕ, zero, suc, ◌≤◌, ◌<◌, ◌≡◌, refl, ◌∙◌, Bool, true, false, ◌&&◌, List, [], ◌∷◌, ◌++◌, Bytes, none,
  some, if◌then◌else◌, length, length-append, all, arith, Option-cases, inl, inr,
}
use ckarta.Http.Bytes.{is_tchar, bytes_eq, break, split_colon}
use ckarta.Http.Bytes.Tchar.{is_tchar-ranges}
use ckarta.Http.Parser.{
  Header, Request, RequestLine, is_target_byte, method_valid, target_valid, http_version, find_crlf,
  parse_request_line, max_headers, skip_ows, is_ows,
}
use ckarta.Http.Parser.Numbers.{trim_ows-split}
use ckarta.Http.Parser.Block.{
  Checked, accepted, refused, out_of_fuel, LineStep, block_end, line_refused, line_stored,
  header_line, next_line, behind_line, header_lines, behind_lines, frame, settle,
  parse_header_block,
}
use ckarta.Http.Parser.Block.Form.{
  header_ok, LineIsWellFormed, token_byte, IsWellFormed, some_byte, all_same, target_byte,
  headers-AllWellFormed,
}

bytes_eq-eq : (r s : Bytes) → bytes_eq r s ≡ true → r ≡ s
bytes_eq-eq [] [] h = refl
bytes_eq-eq [] (b ∷ s) h = cc
bytes_eq-eq (a ∷ r) [] h = cc
bytes_eq-eq (a ∷ r) (b ∷ s) h = ground (arith, bytes_eq-eq r s)

all-append {ℓ} :
    {A : Type ℓ} (p : A → Bool) (xs ys : List A) → all p (xs ++ ys) ≡ (all p xs && all p ys)
all-append p [] ys = refl
all-append p (x ∷ xs) ys = ground (arith, all-append p xs ys)

parts_sound :
    (method rest target version : Bytes) (valid : Bool) (l : RequestLine)
    → (method_valid method rest && target_valid target && bytes_eq version http_version) ≡ valid
    → (if valid
        then some (record { method = method; target = target; version = version })
        else none)
      ≡ some l
    → LineIsWellFormed l
unfolding method_valid target_valid
parts_sound method rest target version false l v e = cc
parts_sound method rest target version true l v e =
    let same : version ≡ http_version = bytes_eq-eq version http_version (ground arith) in
    record {
      method_some = ground arith;
      method_short = ground arith;
      method_token = ground arith;
      target_some = ground arith;
      target_short = ground arith;
      target_bytes = ground arith;
      version_is = ground (arith, same);
    }

parse_request_line_sound :
    (line : Bytes) (l : RequestLine) → parse_request_line line ≡ some l → LineIsWellFormed l
unfolding parse_request_line
parse_request_line_sound line l e =
    let (method, behind_method) = break is_ows line in
    let (target, behind_target) = break is_ows (skip_ows behind_method) in
    parts_sound method behind_method target (skip_ows behind_target) _ l refl e

header_line-ok :
    (line after : Bytes) (h : Header) (left : Bytes)
    → header_line line after ≡ line_stored h left
    → header_ok h ≡ true
unfolding header_line
header_line-ok line after h left e = elim (Option-cases (split_colon line)) [
  | inl q ↦ ground arith
  | inr ((name, raw), q) ↦ ground (arith, trim_ows-split raw)
]

next_line-ok :
    (count : ℕ) (rest : Bytes) (h : Header) (left : Bytes)
    → next_line count rest ≡ line_stored h left
    → (header_ok h ≡ true) × (count < max_headers)
unfolding next_line
next_line-ok count rest h left e = elim (Option-cases (find_crlf rest)) [
  | inl q ↦ ground arith
  | inr ((line, after), q) ↦ ground (arith, header_line-ok line after h left)
]

behind_line-ok :
    (step : LineStep) (headers found : List Header) (next : Header → Bytes → Checked (List Header))
    → all header_ok headers ≡ true
    → length headers ≤ max_headers
    → ((h : Header) (after : Bytes)
        → step ≡ line_stored h after
        → next h after ≡ accepted found
        → (all header_ok found ≡ true) × (length found ≤ max_headers))
    → behind_line step headers next ≡ accepted found
    → (all header_ok found ≡ true) × (length found ≤ max_headers)
unfolding behind_line
behind_line-ok block_end headers found next h k ih e = ground arith
behind_line-ok (line_refused r) headers found next h k ih e = cc
behind_line-ok (line_stored g after) headers found next h k ih e = ih g after refl e

header_lines-ok :
    (fuel : ℕ) (headers : List Header) (rest : Bytes) (found : List Header)
    → all header_ok headers ≡ true
    → length headers ≤ max_headers
    → header_lines fuel headers rest ≡ accepted found
    → (all header_ok found ≡ true) × (length found ≤ max_headers)
unfolding header_lines
header_lines-ok zero headers rest found h k e = cc
header_lines-ok (suc fuel) headers rest found h k e =
    behind_line-ok (next_line (length headers) rest) headers found _ h k
      (λ g after step next.
        let (good, room) = next_line-ok (length headers) rest g after step in
        header_lines-ok fuel (headers ++ g ∷ []) after found
          (all-append header_ok headers (g ∷ []) ∙ ground arith)
          (omega (arith, length-append headers (g ∷ []))) next)
      e

-- The line and the headers go into the request as they are.
record Carries (l : RequestLine) (headers : List Header) (q : Request) : Type 0 where
  method_is : q.method ≡ l.method
  target_is : q.target ≡ l.target
  version_is : q.version ≡ l.version
  headers_are : q.headers ≡ headers

frame-Carries :
    (l : RequestLine) (headers : List Header) (q : Request)
    → frame l headers ≡ accepted q
    → Carries l headers q
unfolding frame settle
frame-Carries l headers q e = ground arith

behind_lines_sound :
    (l : RequestLine) (c : Checked (List Header)) (q : Request)
    → LineIsWellFormed l
    → ((found : List Header)
        → c ≡ accepted found
        → (all header_ok found ≡ true) × (length found ≤ max_headers))
    → behind_lines l c ≡ accepted q
    → IsWellFormed q
unfolding behind_lines
behind_lines_sound l (accepted headers) q w k e =
    let v = frame-Carries l headers q e in
    let (good, few) = k headers refl in
    rw (v.method_is, v.target_is, v.version_is, v.headers_are)
      (record {
        method_some = some_byte l.method w.method_some;
        method_short = w.method_short;
        method_token = all_same is_tchar token_byte l.method is_tchar-ranges w.method_token;
        target_some = some_byte l.target w.target_some;
        target_short = w.target_short;
        target_bytes = all_same is_target_byte _ l.target target_byte w.target_bytes;
        version_is = w.version_is;
        few_headers = few;
        headers_ok = headers-AllWellFormed headers good;
      })
behind_lines_sound l (refused r) q w k e = cc
behind_lines_sound l out_of_fuel q w k e = cc

-- A request that `parse_header_block` accepts has a method of 1 to 32 bytes, each a token byte or 0,
-- a target of 1 to 8192 bytes without controls, blanks or DEL, the version HTTP/1.1, and at most 128
-- headers, each with a name of 1 to 256 bytes, each a token byte or 0, and a value of at most 16384
-- bytes that neither starts nor ends with a blank or TAB.
pub parse_header_block-IsWellFormed :
    (buffer : Bytes) (q : Request) → parse_header_block buffer ≡ accepted q → IsWellFormed q
unfolding parse_header_block
parse_header_block-IsWellFormed buffer q e = elim (Option-cases (find_crlf buffer)) [
  | inl n ↦ ground arith
  | inr ((first, rest), n) ↦ elim (Option-cases (parse_request_line first)) [
    | inl m ↦ ground arith
    | inr (l, m) ↦
        behind_lines_sound l (header_lines (suc (length rest)) [] rest) q
          (parse_request_line_sound first l m)
          (λ found. header_lines-ok (suc (length rest)) [] rest found refl (omega arith))
          (ground arith)
  ]
]
