-- ===== src/Http/Parser/Block/Framed.antt =====
-- The one way in which an accepted head frames its body.
use ckarta.Prelude.{
  ℕ, suc, ◌≡◌, ◌≢◌, refl, sym, Bool, true, false, not, List, [], ◌∷◌, Bytes, Option, none, some,
  if◌then◌else◌, length, all, arith, Option-cases, inl, inr,
}
use ckarta.Http.Parser.{
  Header, Request, RequestLine, content_length, chunked, no_body, find_crlf, parse_request_line,
  parse_uint64, trim_ows,
}
use ckarta.Http.Parser.Framing.{
  TransferEncoding, content_length_name, transfer_encoding_name, connection_name,
}
use ckarta.Http.Parser.Framing.Items.{
  mentions, field_items, no_items, is_length, is_chunked_item, is_close_item, is_blank_item, any,
  length_of_items, parse_content_length_headers-items, parse_transfer_encoding_headers-items,
  parse_connection_headers-items,
}
use ckarta.Http.Parser.Block.{
  Checked, accepted, refused, out_of_fuel, behind_lines, frame_parts, frame, settle, header_lines,
  parse_header_block,
}

-- Transfer-Encoding goes first: its items are all `chunked`, and the connection has to close.
-- Otherwise Content-Length decides: its items are all the length. Without either there is no body.
pub record IsFramed (q : Request) : Type 0 where
  pub coded :
      mentions transfer_encoding_name q.headers ≡ true
      → (q.body_mode ≡ chunked)
        × (q.body_bytes ≡ 0)
        × (q.connection_close_required ≡ true)
        × (all is_chunked_item (field_items transfer_encoding_name q.headers) ≡ true)
        × (no_items (field_items transfer_encoding_name q.headers) ≡ false)
  pub measured :
      mentions transfer_encoding_name q.headers ≡ false
      → no_items (field_items content_length_name q.headers) ≡ false
      → (q.body_mode ≡ content_length)
        × (all (is_length q.body_bytes) (field_items content_length_name q.headers) ≡ true)
        × (q.connection_close_required ≡ any is_close_item (field_items connection_name q.headers))
  pub bare :
      mentions transfer_encoding_name q.headers ≡ false
      → no_items (field_items content_length_name q.headers) ≡ true
      → (q.body_mode ≡ no_body)
        × (q.body_bytes ≡ 0)
        × (q.connection_close_required ≡ any is_close_item (field_items connection_name q.headers))
  pub lengths_agree : length_of_items (field_items content_length_name q.headers) ≢ none

length_of_items-length :
    (items : List Bytes) (n : ℕ)
    → length_of_items items ≡ some (some n)
    → (no_items items ≡ false) × (all (is_length n) items ≡ true)
length_of_items-length [] n e = cc
length_of_items-length (item ∷ items) n e = elim (Option-cases (parse_uint64 (trim_ows item))) [
  | inl q ↦ ground arith
  | inr (m, q) ↦ ground arith
]

length_of_items-empty :
    (items : List Bytes) → length_of_items items ≡ some none → no_items items ≡ true
length_of_items-empty [] e = refl
length_of_items-empty (item ∷ items) e = ground arith

-- The verdict, from the four answers that `settle` is given.
settle-IsFramed :
    (l : RequestLine) (headers : List Header) (given : Option ℕ) (close : Bool) (q : Request)
    → let coded = field_items transfer_encoding_name headers in
      length_of_items (field_items content_length_name headers) ≡ some given
      → all is_chunked_item coded ≡ true
      → close ≡ any is_close_item (field_items connection_name headers)
      → settle l headers given
          (record {
            present = mentions transfer_encoding_name headers;
            is_chunked = not (no_items coded);
          })
          close
        ≡ accepted q
      → IsFramed q
unfolding settle
settle-IsFramed l headers none close q g t c e =
    ground (arith, length_of_items-empty (field_items content_length_name headers) g)
settle-IsFramed l headers (some n) close q g t c e =
    ground (arith, length_of_items-length (field_items content_length_name headers) n g)

-- `frame`, over the three answers as data.
frame_parts-IsFramed :
    (l : RequestLine) (headers : List Header) (q : Request) (given : Option (Option ℕ))
    (coding : Option TransferEncoding) (close : Option Bool)
    → given ≡ length_of_items (field_items content_length_name headers)
    → coding ≡ (
        if all is_chunked_item (field_items transfer_encoding_name headers)
        then some (record {
          present = mentions transfer_encoding_name headers;
          is_chunked = not (no_items (field_items transfer_encoding_name headers));
        })
        else none)
    → close ≡ (
        if any is_blank_item (field_items connection_name headers)
        then none
        else some (any is_close_item (field_items connection_name headers)))
    → frame_parts l headers given coding close ≡ accepted q
    → IsFramed q
unfolding frame_parts
frame_parts-IsFramed l headers q none coding close g t c e = cc
frame_parts-IsFramed l headers q (some given) none close g t c e = cc
frame_parts-IsFramed l headers q (some given) (some coding) none g t c e = cc
frame_parts-IsFramed l headers q (some given) (some coding) (some close) g t c e =
    let all_chunked : all is_chunked_item (field_items transfer_encoding_name headers) ≡ true =
      ground arith in
    let coding_is : coding ≡ record {
      present = mentions transfer_encoding_name headers;
      is_chunked = not (no_items (field_items transfer_encoding_name headers));
    } =
      ground arith in
    settle-IsFramed l headers given close q (sym g) all_chunked (ground arith) (rw coding_is at e)

frame-IsFramed :
    (l : RequestLine) (headers : List Header) (q : Request)
    → frame l headers ≡ accepted q
    → IsFramed q
unfolding frame
frame-IsFramed l headers q e =
    frame_parts-IsFramed l headers q _ _ _ (parse_content_length_headers-items headers)
      (parse_transfer_encoding_headers-items headers) (parse_connection_headers-items headers) e

behind_lines-IsFramed :
    (l : RequestLine) (c : Checked (List Header)) (q : Request)
    → behind_lines l c ≡ accepted q
    → IsFramed q
unfolding behind_lines
behind_lines-IsFramed l (accepted headers) q e = frame-IsFramed l headers q e
behind_lines-IsFramed l (refused r) q e = cc
behind_lines-IsFramed l out_of_fuel q e = cc

-- An accepted head frames its body in one way only. With a Transfer-Encoding field the body is
-- chunked, its length is 0, the connection has to close, and the items of these fields are all
-- `chunked`, one at least. Otherwise, with an item in a Content-Length field, the body is measured
-- and every such item is its length. Otherwise there is no body. Without Transfer-Encoding the
-- connection has to close exactly if a Connection field has the item `close`. In each case the
-- Content-Length items do not contradict one another.
pub parse_header_block-IsFramed :
    (buffer : Bytes) (q : Request) → parse_header_block buffer ≡ accepted q → IsFramed q
unfolding parse_header_block
parse_header_block-IsFramed buffer q e = elim (Option-cases (find_crlf buffer)) [
  | inl n ↦ ground arith
  | inr ((first, rest), n) ↦ elim (Option-cases (parse_request_line first)) [
    | inl m ↦ ground arith
    | inr (l, m) ↦
        behind_lines-IsFramed l (header_lines (suc (length rest)) [] rest) q (ground arith)
  ]
]
