-- ===== src/Output/Response/Serialize.antt =====
-- `ck_http_response_serialize_headers`: the head of a finished response.
use ckarta.Prelude.{
  ℕ, Bool, true, false, refl, ◌∷◌, ◌&&◌, all, ◌+◌, ◌≤◌, ◌≡◌, not, ◌||◌, [], ◌++◌, Bytes, Option,
  none, some, ltb, leb, ◌==◌, if◌then◌else◌, length, length-append, uint64_max, arith,
}
use ckarta.Http.Bytes.{codes, is_empty}
use ckarta.Status.{Status, minus_one, minus_two, ok}
use ckarta.Output.Response.{Response, is_finished, finished, size_max}
use ckarta.Output.Response.Decimal.{digits, digits-short, digits-value, digits-three}
use ckarta.Http.Parser.Numbers.{decimal}
use ckarta.Output.Response.States.{IsValid}

-- The text that the format of `snprintf` gives. `%03u` pads with zeros; a status has three digits.
header_text : Response → ℕ → Bytes
header_text r content_length =
    codes "HTTP/1.1 "
    ++ (digits r.status
        ++ (codes " \r\nContent-Length: "
            ++ (digits content_length
                ++ (codes "\r\n"
                    ++ ((if r.connection_close then codes "Connection: close\r\n" else [])
                        ++ codes "\r\n")))))

-- The bytes and the length that are stored, where the result is 0.
pub serialize_headers : Response → ℕ → Option Bytes × Status
serialize_headers r capacity =
    let content_length = if r.content_length_set then r.content_length else length r.body in
    let text = header_text r content_length in
    if capacity == 0 || not (is_finished r.state)
    then (none, minus_one)
    else if ltb size_max content_length
    then (none, minus_one)
    else if leb capacity (length text)
    then (none, minus_two)
    else (some text, ok)

length-header_text :
    (r : Response) (n : ℕ)
    → r.status ≤ 599
    → n ≤ uint64_max
    → length (header_text r n) ≤ 9 + (20 + (19 + (20 + (2 + (19 + 2)))))
unfolding header_text
length-header_text r n h k =
    let (_, status_short, _) = digits-short r.status (omega arith) in
    let (_, length_short, _) = digits-short n k in
    let close = if r.connection_close then codes "Connection: close\r\n" else [] in
    let close_short : length close ≤ 19 = ground arith in
    let end1 = close ++ codes "\r\n" in
    let end2 = codes "\r\n" ++ end1 in
    let end3 = digits n ++ end2 in
    let end4 = codes " \r\nContent-Length: " ++ end3 in
    omega (
      arith,
      length-append close (codes "\r\n"),
      length-append (digits n) end2,
      length-append (digits r.status) end4,
      status_short,
      length_short,
      close_short,
    )

-- A head of an HTTP/1.1 response, said without the code that prints it: its status and its length are
-- rows of decimal digits, with these values.
pub record Announces (status body_length : ℕ) (close : Bool) (text : Bytes) : Type 0 where
  pub status_digits : Bytes
  pub length_digits : Bytes
  pub text_is :
      text
      ≡ codes "HTTP/1.1 "
        ++ (status_digits
            ++ (codes " \r\nContent-Length: "
                ++ (length_digits
                    ++ (codes "\r\n"
                        ++ ((if close then codes "Connection: close\r\n" else [])
                            ++ codes "\r\n")))))
  pub status_is : decimal 0 status_digits ≡ status
  pub status_three : length status_digits ≡ 3
  pub status_decimal : all (λ c. leb 0x30 c && leb c 0x39) status_digits ≡ true
  pub length_is : decimal 0 length_digits ≡ body_length
  pub length_some : 1 ≤ length length_digits
  pub length_decimal : all (λ c. leb 0x30 c && leb c 0x39) length_digits ≡ true

header_text-Announces :
    (r : Response) (n : ℕ)
    → 200 ≤ r.status
    → r.status ≤ 599
    → n ≤ uint64_max
    → Announces r.status n r.connection_close (header_text r n)
unfolding header_text
header_text-Announces r n l h k = record {
  status_digits = digits r.status;
  length_digits = digits n;
  text_is = refl;
  status_is = digits-value r.status (omega arith);
  status_three = digits-three r.status (omega arith) (omega arith);
  status_decimal = (digits-short r.status (omega arith)).0;
  length_is = digits-value n k;
  length_some = some_byte (digits n) (digits-short n k).2;
  length_decimal = (digits-short n k).0;
}
  where
    some_byte : (xs : Bytes) → is_empty xs ≡ false → 1 ≤ length xs
    some_byte [] e = cc
    some_byte (x ∷ xs) e = omega arith

-- A finished response has its head written whenever the buffer takes 92 bytes, as the 1024 of
-- CK_HTTP_RESPONSE_HEADER_BUFFER_BYTES are: an HTTP/1.1 head with the status in three decimal digits,
-- the number of the bytes of the body as its Content-Length in decimal digits, and the line
-- `Connection: close` exactly if the response closes the connection.
pub serialize_headers-Announces :
    (r : Response) (capacity : ℕ)
    → IsValid r
    → r.state ≡ finished
    → 92 ≤ capacity
    → (text : Bytes) × (serialize_headers r capacity ≡ (some text, ok))
      × Announces r.status (length r.body) r.connection_close text
unfolding serialize_headers
serialize_headers-Announces r capacity v f h =
    let announced : (if r.content_length_set then r.content_length else length r.body)
        ≡ length r.body =
      ground (arith, v.announced f) in
    let short = length-header_text r (length r.body) v.status_fits.1 (omega arith) in
    (
      header_text r (length r.body),
      rw announced (ground (arith, short)),
      header_text-Announces r (length r.body) v.status_fits.0 v.status_fits.1 (omega arith),
    )
