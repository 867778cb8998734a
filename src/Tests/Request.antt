-- ===== src/Tests/Request.antt =====
-- A request that is begun and fails, and the hand-over of a parsed one.
use ckarta.Prelude.{◌≡◌, refl, [], ◌∷◌, none, some, arith}
use ckarta.Status.{ok}
use ckarta.Error.{Error}
use ckarta.Request.{Request, pending, begin_attempt, fail_attempt}
use ckarta.Request.Metadata.{init_http, unpack_metadata, flag_byte, init_http-accepted}
use ckarta.Request.Race.{
  World, Reach, here, next, begins_now, fail_claims, fail_stores, fail_publishes, reads_error,
  IsConsistent, request_Reach-IsConsistent, failed_with, nobody,
}
use ckarta.Tests.Parser.{posted, posted_request, parse-posted}

abbrev timed_out : Error
timed_out = record {
  abi_version = 1;
  category = 4;
  code = 4;
  http_status = ckarta.Error.pos 504;
  flags = 0;
  phase = 2;
  request_id = 8;
}

abbrev no_error : Error
no_error = record timed_out { category = 0; code = 0 }

-- The world after a failing call and a reader of its error.
abbrev failed_once : World
failed_once = record {
  state = 5;
  error = timed_out;
  failer = nobody;
  begins = 1;
  winners = failed_with timed_out ∷ [];
  seen = timed_out ∷ [];
}

failed_once-Reach : Reach no_error failed_once
unfolding begin_attempt fail_attempt
failed_once-Reach =
    next
      (next
        (next (next (next here (begins_now refl)) (fail_claims timed_out refl))
          (fail_stores timed_out refl))
        (fail_publishes timed_out refl))
      (reads_error refl)

request_Reach-IsConsistent_example : IsConsistent failed_once
request_Reach-IsConsistent_example = request_Reach-IsConsistent failed_once-Reach

-- A request object with anything in it.
abbrev blank : Request
blank = record {
  descriptor = record {
    abi_version = 0;
    struct_size = 0;
    feature_flags = 0;
    ownership_flags = 0;
    owner_token = 0;
    lifetime_token = 0;
    request_id = 0;
    metadata = none;
    metadata_length = 0;
    body = none;
    body_length = 0;
  };
  state = 4;
  error = no_error;
  metadata_storage = [];
}

-- Without a body, as in main.c.
init_http-accepted_example :
    let (d, s) = init_http blank posted_request none 0 7 8 9 in
    (s ≡ ok)
    × (d.state ≡ pending)
    × (d.descriptor.metadata ≡ some d.metadata_storage)
    × (unpack_metadata d.metadata_storage ≡ (
      posted_request.method,
      posted_request.target,
      posted_request.version,
      flag_byte posted_request.connection_close_required,
    ))
    × (d.descriptor.body ≡ none)
    × (d.descriptor.body_length ≡ 0)
    × (d.descriptor.request_id ≡ 7)
    × (d.descriptor.owner_token ≡ 8)
    × (d.descriptor.lifetime_token ≡ 9)
init_http-accepted_example =
    init_http-accepted blank posted posted_request none 0 7 8 9 parse-posted (λ e. refl)
      (omega arith) (ground arith) (omega arith) (omega arith) (omega arith)
