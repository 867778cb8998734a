-- ===== src/Tests/Response.antt =====
-- The response on an exchange that sets a length, writes and finishes.
use ckarta.Prelude.{◌≡◌, refl, true, List, [], ◌∷◌, Bytes, some, arith}
use ckarta.Http.Bytes.{codes}
use ckarta.Status.{ok}
use ckarta.Output.Response.{Response, finished, init}
use ckarta.Output.Response.States.{
  Op, status_set, length_set, finishing, written, run, IsValid, run-init-IsValid,
}
use ckarta.Output.Response.Serialize.{Announces, serialize_headers, serialize_headers-Announces}

abbrev exchange : List Op
exchange = status_set 200 ∷ length_set 2 ∷ written (codes "hi") ∷ finishing ∷ []

run-init-IsValid_example : IsValid (run init exchange)
run-init-IsValid_example = run-init-IsValid exchange

abbrev sent : Response
sent = record {
  state = finished;
  status = 200;
  content_length = 2;
  content_length_set = true;
  connection_close = true;
  body = codes "hi";
}

sent-IsValid : IsValid sent
sent-IsValid = ground arith

serialize_headers-Announces_example :
    (text : Bytes) × (serialize_headers sent 1024 ≡ (some text, ok))
    × Announces 200 2 sent.connection_close text
serialize_headers-Announces_example =
    serialize_headers-Announces sent 1024 sent-IsValid refl (omega arith)
