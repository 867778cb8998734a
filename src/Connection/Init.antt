-- ===== src/Connection/Init.antt =====
-- `ck_connection_init` and the blocks that it allocates. The heap is the list of the live blocks;
-- what the four calls of `malloc` return, NULL as `none`, is a parameter.
use ckarta.Prelude.{
  ℕ, ◌≡◌, Bool, true, false, not, ◌||◌, List, [], ◌∷◌, Option, none, some, ◌==◌, if◌then◌else◌,
  arith,
}
use ckarta.Status.{Status, minus_one, ok}
use ckarta.Connection.{Connection}
use ckarta.Connection.Word.{open_state, pack}

pub free : ℕ → List ℕ → List ℕ
free block [] = []
free block (b ∷ heap) = if b == block then heap else b ∷ free block heap

pub record Malloc : Type 0 where
  pub reader : Option ℕ
  pub writer : Option ℕ
  pub request_body : Option ℕ
  pub response : Option ℕ

pub record Ids : Type 0 where
  pub connection_id : ℕ
  pub request_id : ℕ
  pub owner_token : ℕ
  pub lifetime_token : ℕ

pub record Made : Type 0 where
  pub connection : Connection
  pub heap : List ℕ
  pub status : Status

-- The last part, with all four blocks at hand.
established : Connection → Ids → List ℕ → Made
established c ids heap = record {
  connection = record c {
    connection_id = ids.connection_id;
    request_id = ids.request_id;
    owner_token = ids.owner_token;
    lifetime_token = ids.lifetime_token;
    socket_fd = none;
    lifecycle = pack open_state none 0;
  };
  heap = heap;
  status = ok;
}

with_response : Connection → Ids → Option ℕ → ℕ → ℕ → List ℕ → Made
unfolding free established
with_response c ids none reader writer heap = record {
  connection = record c { http_response = none; http_writer = none; http_reader = none };
  heap = free reader (free writer heap);
  status = minus_one;
}
with_response c ids (some response) reader writer heap =
    established (record c { http_response = some response }) ids (response ∷ heap)

with_body : Connection → Ids → Malloc → ℕ → ℕ → List ℕ → Option ℕ → Made
unfolding with_response
with_body c ids m reader writer heap none = record {
  connection = record c { http_request_body = none; http_writer = none; http_reader = none };
  heap = free reader (free writer heap);
  status = minus_one;
}
with_body c ids m reader writer heap (some request_body) =
    with_response (record c { http_request_body = some request_body }) ids m.response reader writer
      (request_body ∷ heap)

with_writer : Connection → Ids → Malloc → ℕ → List ℕ → Option ℕ → Made
unfolding with_body
with_writer c ids m reader heap none = record {
  connection = record c { http_writer = none; http_reader = none };
  heap = free reader heap;
  status = minus_one;
}
with_writer c ids m reader heap (some writer) =
    with_body (record c { http_writer = some writer }) ids m reader writer (writer ∷ heap)
      m.request_body

with_reader : Connection → Ids → Malloc → List ℕ → Option ℕ → Made
unfolding with_writer
with_reader c ids m heap none = record {
  connection = record c { http_reader = none };
  heap = heap;
  status = minus_one;
}
with_reader c ids m heap (some reader) =
    with_writer (record c { http_reader = some reader }) ids m reader (reader ∷ heap) m.writer

unfoldable pub init : Connection → Ids → Malloc → List ℕ → Made
unfolding with_reader
init c ids m heap =
    if ids.connection_id == 0 || ids.request_id == 0
    then record { connection = c; heap = heap; status = minus_one }
    else with_reader (record c { http_request_body = none }) ids m heap m.reader

-- Two calls of `malloc` that succeed give two blocks.
abbrev pub are_apart : Option ℕ → Option ℕ → Bool
are_apart (some a) (some b) = not (a == b)
are_apart none b = true
are_apart (some a) none = true

abbrev pub is_none : Option ℕ → Bool
is_none none = true
is_none (some block) = false

-- The three ends of a call: it is refused or lacks one of the first three blocks, and the heap is as
-- before; it lacks the fourth alone, and the block of the request body stays; or it has all four.
pub data Blocks (ids : Ids) (m : Malloc) (heap : List ℕ) : Made → Type 0 where
  balanced :
      {d : Connection}
      → (ids.connection_id == 0
          || ids.request_id == 0
          || is_none m.reader
          || is_none m.writer
          || is_none m.request_body)
        ≡ true
      → Blocks ids m heap (record { connection = d; heap = heap; status = minus_one })
  leaks :
      {d : Connection} (request_body : ℕ)
      → is_none m.reader ≡ false
      → is_none m.writer ≡ false
      → m.request_body ≡ some request_body
      → m.response ≡ none
      → d.http_reader ≡ none
      → d.http_writer ≡ none
      → d.http_response ≡ none
      → d.http_request_body ≡ some request_body
      → Blocks ids m heap
          (record { connection = d; heap = request_body ∷ heap; status = minus_one })
  opens :
      {d : Connection} (reader writer request_body response : ℕ)
      → m.reader ≡ some reader
      → m.writer ≡ some writer
      → m.request_body ≡ some request_body
      → m.response ≡ some response
      → d.http_reader ≡ some reader
      → d.http_writer ≡ some writer
      → d.http_request_body ≡ some request_body
      → d.http_response ≡ some response
      → d.connection_id ≡ ids.connection_id
      → d.request_id ≡ ids.request_id
      → d.owner_token ≡ ids.owner_token
      → d.lifetime_token ≡ ids.lifetime_token
      → d.lifecycle ≡ pack open_state none 0
      → Blocks ids m heap (record {
        connection = d;
        heap = response ∷ request_body ∷ writer ∷ reader ∷ heap;
        status = ok;
      })

-- A call that succeeds leaves an open connection under the ids given.
pub init-ids :
    (c : Connection) (ids : Ids) (m : Malloc) (heap : List ℕ)
    → (init c ids m heap).status ≡ ok
    → let d = (init c ids m heap).connection in
      (d.connection_id ≡ ids.connection_id)
      × (d.request_id ≡ ids.request_id)
      × (d.lifecycle ≡ pack open_state none 0)
unfolding init
init-ids c ids m heap h = ground arith
