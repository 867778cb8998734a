-- ===== src/Request/Metadata.antt =====
-- `ck_request_init_http`: the block of metadata that the Java side reads, and the descriptor.
use ckarta.Prelude.{
  ℕ, ◌+◌, ◌*◌, ◌/◌, ◌%◌, ◌^◌, ◌≤◌, ◌<◌, ◌≡◌, ◌≢◌, refl, ap, ◌∙◌, Bool, true, false, not, ◌&&◌, ◌||◌,
  [], ◌∷◌, ◌++◌, Bytes, Option, none, some, ltb, ◌==◌, if◌then◌else◌, length, take, drop, get_or,
  take-length-append, drop-length-append, arith,
}
use ckarta.Http.Parser
use ckarta.Http.Parser.Block.{accepted, parse_header_block}
use ckarta.Http.Parser.Block.WellFormed.{parse_header_block-IsWellFormed}
use ckarta.Status.{Status, minus_one, ok}
use ckarta.Error.{pos}
use ckarta.Request.{
  Request, Descriptor, is_null, init, descriptor_valid, pending, jni_abi_version, descriptor_bytes,
  metadata_storage_bytes, int32_max, int64_max,
}

abbrev pub max_version_bytes : ℕ
max_version_bytes = 16

-- `write_u32_be`, as the four bytes that it stores.
pub u32_be : ℕ → Bytes
u32_be value = value / 2 ^ 24 % 256 ∷ value / 2 ^ 16 % 256 ∷ value / 2 ^ 8 % 256 ∷ value % 256 ∷ []

-- The int that is stored as the last byte.
abbrev pub flag_byte : Bool → ℕ
flag_byte true = 1
flag_byte false = 0

unfoldable pub metadata : Parser.Request → Bytes
unfolding u32_be
metadata q =
    u32_be (length q.method)
    ++ (u32_be (length q.target)
        ++ (u32_be (length q.version)
            ++ (q.method
                ++ (q.target ++ (q.version ++ flag_byte q.connection_close_required ∷ [])))))

-- What `memset` leaves, but for the storage.
abbrev zeroed : Bytes → Request
zeroed storage = record {
  descriptor = record {
    abi_version = 0;
    struct_size = 0;
    feature_flags = 0;
    ownership_flags = 0;
    owner_token = 0;
    lifetime_token = 0;
    request_id = 0;
    metadata = none;
    metadata_length = 0;
    body = none;
    body_length = 0;
  };
  state = pending;
  error = record {
    abi_version = 0;
    category = 0;
    code = 0;
    http_status = pos 0;
    flags = 0;
    phase = 0;
    request_id = 0;
  };
  metadata_storage = storage;
}

-- DIRECT_BUFFER and METADATA_BUFFER; OWNS_NATIVE_STORAGE and JAVA_BORROWS_BUFFER.
pub descriptor_of : Bytes → ℕ → Option Bytes → ℕ → ℕ → ℕ → ℕ → Descriptor
descriptor_of storage metadata_length body body_length request_id owner_token lifetime_token =
    record {
      abi_version = jni_abi_version;
      struct_size = descriptor_bytes;
      feature_flags = 3;
      ownership_flags = 3;
      owner_token = owner_token;
      lifetime_token = lifetime_token;
      request_id = request_id;
      metadata = some storage;
      metadata_length = metadata_length;
      body = body;
      body_length = body_length;
    }

abbrev body_missing : Option Bytes → ℕ → Bool
body_missing none body_length = not (body_length == 0)
body_missing (some bytes) body_length = false

pub init_http : Request → Parser.Request → Option Bytes → ℕ → ℕ → ℕ → ℕ → Request × Status
unfolding descriptor_of
init_http r q body body_length request_id owner_token lifetime_token =
    let metadata_length = 12 + length q.method + length q.target + length q.version + 1 in
    if ltb Parser.max_method_bytes (length q.method)
      || ltb Parser.max_target_bytes (length q.target)
      || ltb max_version_bytes (length q.version)
      || body_missing body body_length
      || ltb int32_max body_length
    then (r, minus_one)
    else if ltb metadata_storage_bytes metadata_length || ltb int32_max metadata_length
    then (r, minus_one)
    else init (zeroed (metadata q)) (
        descriptor_of (metadata q) metadata_length body body_length request_id owner_token
          lifetime_token)

-- The reader of a block: three lengths, the three stretches that they measure, and the flag.
pub read_u32_be : Bytes → ℕ
read_u32_be bytes =
    get_or bytes 0 0 * 2 ^ 24
    + get_or bytes 1 0 * 2 ^ 16
    + get_or bytes 2 0 * 2 ^ 8
    + get_or bytes 3 0

pub unpack_metadata : Bytes → Bytes × Bytes × Bytes × ℕ
unfolding read_u32_be
unpack_metadata bytes =
    let rest = drop 12 bytes in
    let n = read_u32_be bytes in
    let behind_method = drop n rest in
    let m = read_u32_be (drop 4 bytes) in
    let behind_target = drop m behind_method in
    let k = read_u32_be (drop 8 bytes) in
    (take n rest, take m behind_method, take k behind_target, get_or (drop k behind_target) 0 0)

read_u32_be-u32_be : (n : ℕ) (rest : Bytes) → n < 2 ^ 32 → read_u32_be (u32_be n ++ rest) ≡ n
unfolding read_u32_be u32_be
read_u32_be-u32_be n rest h = omega arith

-- What `unpack_metadata` gives, once the three lengths are known.
abbrev parts : ℕ → ℕ → ℕ → Bytes → Bytes × Bytes × Bytes × ℕ
parts n m k rest = (
  take n rest,
  take m (drop n rest),
  take k (drop m (drop n rest)),
  get_or (drop k (drop m (drop n rest))) 0 0,
)

unpack_metadata-parts :
    (bytes : Bytes) (n m k : ℕ)
    → read_u32_be bytes ≡ n
    → read_u32_be (drop 4 bytes) ≡ m
    → read_u32_be (drop 8 bytes) ≡ k
    → unpack_metadata bytes ≡ parts n m k (drop 12 bytes)
unfolding unpack_metadata
unpack_metadata-parts bytes n m k e1 e2 e3 = rw (e1, e2, e3) refl

parts-append :
    (a b c : Bytes) (f : ℕ)
    → parts (length a) (length b) (length c) (a ++ (b ++ (c ++ f ∷ []))) ≡ (a, b, c, f)
parts-append a b c f =
    rw
      (
        take-length-append a (b ++ (c ++ f ∷ [])),
        drop-length-append a (b ++ (c ++ f ∷ [])),
        take-length-append b (c ++ f ∷ []),
        drop-length-append b (c ++ f ∷ []),
        take-length-append c (f ∷ []),
        drop-length-append c (f ∷ []),
      )
      refl

-- The block of a request whose parts have 32-bit lengths unpacks to these parts.
pub unpack_metadata-metadata :
    (q : Parser.Request)
    → length q.method < 2 ^ 32
    → length q.target < 2 ^ 32
    → length q.version < 2 ^ 32
    → unpack_metadata (metadata q)
      ≡ (q.method, q.target, q.version, flag_byte q.connection_close_required)
unfolding metadata u32_be
unpack_metadata-metadata q h1 h2 h3 =
    let tail =
      q.method ++ (q.target ++ (q.version ++ flag_byte q.connection_close_required ∷ [])) in
    let tail3 = u32_be (length q.version) ++ tail in
    let tail2 = u32_be (length q.target) ++ tail3 in
    unpack_metadata-parts (metadata q) (length q.method) (length q.target) (length q.version)
      (read_u32_be-u32_be (length q.method) tail2 h1)
      (read_u32_be-u32_be (length q.target) tail3 h2)
      (read_u32_be-u32_be (length q.version) tail h3)
    ∙ parts-append q.method q.target q.version (flag_byte q.connection_close_required)

init_http-with_body :
    (r : Request) (q : Parser.Request) (body : Option Bytes)
    (body_length request_id owner_token lifetime_token : ℕ)
    → length q.method ≤ 32
    → length q.target ≤ 8192
    → length q.version ≡ 8
    → body_missing body body_length ≡ false
    → is_null body && not (body_length == 0) ≡ false
    → body_length ≤ int32_max
    → request_id ≢ 0
    → request_id ≤ int64_max
    → owner_token ≤ int64_max
    → lifetime_token ≤ int64_max
    → let (d, s) = init_http r q body body_length request_id owner_token lifetime_token in
      (s ≡ ok)
      × (d.state ≡ pending)
      × (d.descriptor
          ≡ descriptor_of
              (metadata q)
              (length q.method + length q.target + 21)
              body
              body_length
              request_id
              owner_token
              lifetime_token)
      × (d.metadata_storage ≡ metadata q)
unfolding init_http init descriptor_valid descriptor_of
init_http-with_body r q body body_length request_id owner_token lifetime_token w1 w2 w3 m n h1 h2 h3
      h4 h5 =
    ground arith

absent_fits :
    (body : Option Bytes) (n : ℕ)
    → (body ≡ none → n ≡ 0)
    → (body_missing body n ≡ false) × (is_null body && not (n == 0) ≡ false)
absent_fits none n h = rw (h refl) (refl, refl)
absent_fits (some bytes) n h = (refl, refl)

-- Every request that the head parser accepts can be handed over: with a body, present or absent, of
-- at most INT32_MAX bytes, which is 0 bytes long if it is absent, tokens and an id that fit in 63
-- bits and an id that is not 0, `init_http` answers 0 and leaves a pending request, whose metadata
-- unpack to the method, the target, the version and the close flag that were parsed, and which
-- carries the body, the id and the tokens that were given.
pub init_http-accepted :
    (r : Request) (buffer : Bytes) (q : Parser.Request) (body : Option Bytes)
    (body_length request_id owner_token lifetime_token : ℕ)
    → parse_header_block buffer ≡ accepted q
    → (body ≡ none → body_length ≡ 0)
    → body_length ≤ int32_max
    → request_id ≢ 0
    → request_id ≤ int64_max
    → owner_token ≤ int64_max
    → lifetime_token ≤ int64_max
    → let (d, s) = init_http r q body body_length request_id owner_token lifetime_token in
      (s ≡ ok)
      × (d.state ≡ pending)
      × (d.descriptor.metadata ≡ some d.metadata_storage)
      × (unpack_metadata d.metadata_storage
          ≡ (q.method, q.target, q.version, flag_byte q.connection_close_required))
      × (d.descriptor.body ≡ body)
      × (d.descriptor.body_length ≡ body_length)
      × (d.descriptor.request_id ≡ request_id)
      × (d.descriptor.owner_token ≡ owner_token)
      × (d.descriptor.lifetime_token ≡ lifetime_token)
unfolding descriptor_of
init_http-accepted r buffer q body body_length request_id owner_token lifetime_token e b h1 h2 h3 h4
      h5 =
    let w = parse_header_block-IsWellFormed buffer q e in
    let v : length q.version ≡ 8 = ap length w.version_is in
    let (absent, null) = absent_fits body body_length b in
    let (answer, state, descriptor, storage) =
      init_http-with_body r q body body_length request_id owner_token lifetime_token w.method_short
        w.target_short v absent null h1 h2 h3 h4 h5 in
    rw (descriptor, storage)
      (
        answer,
        state,
        refl,
        unpack_metadata-metadata q (omega (arith, w.method_short)) (omega (arith, w.target_short))
            (omega (arith, v)),
        refl,
        refl,
        refl,
        refl,
        refl,
      )
