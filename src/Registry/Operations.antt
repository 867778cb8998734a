-- ===== src/Registry/Operations.antt =====
-- The operations on one entry of the table: on its connection, its pins and its end.
use ckarta.Prelude.{
  ℕ, zero, suc, ◌+◌, ◌-◌, ◌%◌, ◌^◌, Bool, true, false, not, ◌&&◌, ◌||◌, Option, none, some, ◌==◌,
  if◌then◌else◌,
}
use ckarta.Connection.{
  Connection, state, start_async_cycle, try_terminal, close, CloseResult, validate_cycle,
}
use ckarta.Connection.Objects.{Objects, is_some}
use ckarta.Connection.Objects as Object
use ckarta.Connection.Word.{closed}
use ckarta.Registry.{
  Registry, Entry, System, Claim, capacity, by_claim, Lookup, refused, found, lookup, put_entry,
  put_connection, decode_handle,
}
use ckarta.Status.{Status, minus_one, minus_two, code, ok}

unfoldable pub attach_socket_at :
    Objects → Registry → Option ℕ → Lookup → Objects × Registry × Status
unfolding put_connection
attach_socket_at o r fd (refused s) = (o, r, s)
attach_socket_at o r fd (found at) =
    let (p, c, s) = Object.attach_socket o (r.entries at).connection fd in
    (p, put_connection r at c, s)

unfoldable pub attach_socket :
    System → Objects → Registry → ℕ → Claim → Option ℕ → Objects × Registry × Status
unfolding lookup attach_socket_at
attach_socket sys o r handle k fd =
    if not (is_some fd)
    then (o, r, minus_one)
    else attach_socket_at o r fd (lookup sys (by_claim k) r handle)

-- `none` is a descriptor below 0; the error codes of the lookup are the other kind of result.
pub data SocketResult : Type 0 where
  error_code : Status → SocketResult
  descriptor : Option ℕ → SocketResult

abbrev socket_fd_at : Registry → Lookup → SocketResult
socket_fd_at r (refused s) = error_code s
socket_fd_at r (found at) = descriptor (Object.socket_fd (r.entries at).connection)

pub socket_fd : System → Registry → ℕ → Claim → SocketResult
unfolding lookup
socket_fd sys r handle k = socket_fd_at r (lookup sys (by_claim k) r handle)

unfoldable pub start_async_at : Registry → ℕ → Lookup → Registry × Status
unfolding put_connection
start_async_at r cycle_id (refused s) = (r, s)
start_async_at r cycle_id (found at) =
    let (c, s) = start_async_cycle (r.entries at).connection cycle_id in (put_connection r at c, s)

unfoldable pub start_async : System → Registry → ℕ → Claim → ℕ → Registry × Status
unfolding lookup start_async_at
start_async sys r handle k cycle_id = start_async_at r cycle_id (lookup sys (by_claim k) r handle)

unfoldable pub terminate_at : Registry → ℕ → Lookup → Registry × Status
unfolding put_connection
terminate_at r event (refused s) = (r, s)
terminate_at r event (found at) =
    let (c, s) = try_terminal (r.entries at).connection event in (put_connection r at c, s)

abbrev pub by_cycle : Claim → ℕ → Connection → Status
by_cycle k cycle_id c = validate_cycle c k.request_id k.owner_token k.lifetime_token cycle_id

unfoldable pub terminate : System → Registry → ℕ → Claim → ℕ → ℕ → Registry × Status
unfolding lookup terminate_at
terminate sys r handle k cycle_id event =
    terminate_at r event (lookup sys (by_cycle k cycle_id) r handle)

-- A pin on the reader, or on the writer, of an entry; a pointer that is NULL is `none`, and the
-- pointer to the connection is the index of its entry.
pub record Pin : Type 0 where
  pub connection : Option ℕ
  pub object : Option ℕ
  pub handle : ℕ

abbrev pub empty_pin : Pin
empty_pin = record { connection = none; object = none; handle = 0 }

abbrev pub is_empty_pin : Pin → Bool
is_empty_pin p = not (is_some p.connection) && not (is_some p.object) && p.handle == 0

abbrev pub add_reader : Entry → Entry
add_reader e = record e { reader_users = (e.reader_users + 1) % 2 ^ 32 }

abbrev pub add_output : Entry → Entry
add_output e = record e { output_users = (e.output_users + 1) % 2 ^ 32 }

-- An acquisition on the entry found, of the reader or of the writer that `object_of` reads; `more`
-- is the entry with a user more.
unfoldable pub acquire_at :
    Registry → ℕ → Pin → (Entry → Option ℕ) → (Entry → Entry) → Lookup → Registry × Pin × Status
unfolding put_entry
acquire_at r handle pin object_of more (refused s) = (r, pin, s)
acquire_at r handle pin object_of more (found at) =
    let e = r.entries at in
    if state e.connection == closed || not (is_some (object_of e)) then (r, pin, code 1) else (
      put_entry r at (more e),
      record { connection = some at; object = object_of e; handle = handle },
      ok,
    )

abbrev pub reader_of : Entry → Option ℕ
reader_of e = e.connection.http_reader

abbrev pub writer_of : Entry → Option ℕ
writer_of e = e.connection.http_writer

unfoldable pub reader_acquire : System → Registry → ℕ → Claim → Pin → Registry × Pin × Status
unfolding lookup acquire_at
reader_acquire sys r handle k pin =
    if not (is_empty_pin pin)
    then (r, pin, minus_one)
    else acquire_at r handle pin reader_of add_reader (lookup sys (by_claim k) r handle)

unfoldable pub output_acquire : System → Registry → ℕ → Claim → Pin → Registry × Pin × Status
unfolding lookup acquire_at
output_acquire sys r handle k pin =
    if not (is_empty_pin pin)
    then (r, pin, minus_one)
    else acquire_at r handle pin writer_of add_output (lookup sys (by_claim k) r handle)

abbrev pub same : Option ℕ → Option ℕ → Bool
same none none = true
same none (some b) = false
same (some a) none = false
same (some a) (some b) = a == b

-- A release on the entry that the pin's handle names; `users` counts its pins and `less` is it with
-- a user less.
unfoldable pub release_at :
    System
    → Registry
    → Pin
    → Option (ℕ × ℕ)
    → (Entry → Option ℕ)
    → (Entry → ℕ)
    → (Entry → Entry)
    → Registry × Pin × Status
unfolding put_entry
release_at sys r pin none object users less = (r, pin, minus_one)
release_at sys r pin (some (index, generation)) object users less =
    let e = r.entries index in
    if not sys.locked
    then (r, pin, minus_one)
    else if not e.active
        || not (e.generation == generation)
        || not (same (some index) pin.connection)
        || not (same (object e) pin.object)
        || users e == 0
    then (r, pin, minus_two)
    else (put_entry r index (less e), empty_pin, sys.unlock)

abbrev pub is_set_pin : Pin → Bool
is_set_pin p = is_some p.connection && is_some p.object && not (p.handle == 0)

unfoldable pub reader_release : System → Registry → Pin → Registry × Pin × Status
unfolding release_at
reader_release sys r pin =
    if not r.initialized || not (is_set_pin pin)
    then (r, pin, minus_one)
    else release_at sys r pin (decode_handle pin.handle) reader_of (λ e. e.reader_users)
        (λ e. record e { reader_users = e.reader_users - 1 })

unfoldable pub output_release : System → Registry → Pin → Registry × Pin × Status
unfolding release_at
output_release sys r pin =
    if not r.initialized || not (is_set_pin pin)
    then (r, pin, minus_one)
    else release_at sys r pin (decode_handle pin.handle) writer_of (λ e. e.output_users)
        (λ e. record e { output_users = e.output_users - 1 })

abbrev pub is_pinned : Entry → Bool
is_pinned e = not (e.reader_users == 0) || not (e.output_users == 0)

unfoldable pub close_at : (ℕ → CloseResult) → Registry → Lookup → Registry × Status
unfolding put_connection
close_at close_socket r (refused s) = (r, s)
close_at close_socket r (found at) =
    let (c, s) = close close_socket (r.entries at).connection in
    if is_pinned (r.entries at) then (r, code 2) else (put_connection r at c, s)

unfoldable pub close_entry : System → (ℕ → CloseResult) → Registry → ℕ → Claim → Registry × Status
unfolding lookup close_at
close_entry sys close_socket r handle k = close_at close_socket r (lookup sys (by_claim k) r handle)

unfoldable pub retire_at : System → Registry → Lookup → Registry × Status
unfolding put_entry
retire_at sys r (refused s) = (r, s)
retire_at sys r (found at) =
    let e = r.entries at in
    if is_pinned e || not (state e.connection == closed) || is_some e.connection.socket_fd
    then (r, code 1)
    else (put_entry r at (record e { active = false }), sys.unlock)

unfoldable pub retire : System → Registry → ℕ → Claim → Registry × Status
unfolding lookup retire_at
retire sys r handle k = retire_at sys r (lookup sys (by_claim k) r handle)

-- The number of active entries among `n` of them from an index on.
unfoldable pub count_active : (ℕ → Entry) → ℕ → ℕ → ℕ
count_active entries index zero = 0
count_active entries index (suc n) =
    let later = count_active entries (index + 1) n in
    if (entries index).active then later + 1 else later

-- `none` is the -1 of a lock that is not got.
unfoldable pub active_count : System → Registry → Option ℕ
unfolding count_active
active_count sys r =
    if not r.initialized || not sys.locked then none else some (count_active r.entries 0 capacity)

abbrev is_zero : Option ℕ → Bool
is_zero none = false
is_zero (some n) = n == 0

-- `made` tells whether destroying the lock succeeds.
unfoldable pub destroy : System → Bool → Registry → Registry × Status
unfolding active_count
destroy sys made r =
    if not r.initialized
    then (r, minus_one)
    else if not (is_zero (active_count sys r))
    then (r, code 1)
    else if not made
    then (r, minus_one)
    else (record r { initialized = false }, ok)
