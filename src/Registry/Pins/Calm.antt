-- ===== src/Registry/Pins/Calm.antt =====
-- The operations that neither make nor end a pin keep the counts: they change the connection of an
-- entry without closing it, or write over an entry that nobody has pinned.
use ckarta.Prelude.{
  ℕ, ◌≡◌, refl, inl, inr, true, false, not, ◌||◌, List, Option, none, some, ◌==◌, arith, Bool-cases,
}
use ckarta.Connection.{Connection, state, start_async_cycle, try_terminal, close, CloseResult}
use ckarta.Connection.Init as ConnectionInit
use ckarta.Connection.Objects.{Objects, is_some}
use ckarta.Connection.Objects as Object
use ckarta.Connection.Objects.Quiet.{
  IsQuiet, attach_socket-IsQuiet, start_async_cycle-IsQuiet, try_terminal-IsQuiet,
}
use ckarta.Connection.Word.{closed}
use ckarta.Registry.{
  Registry, Entry, System, Claim, is_ok, by_claim, next_generation, Lookup, refused, found, lookup,
  put_entry, put_connection, first_free, capacity, register, register_in, register_at,
}
use ckarta.Registry.Entries.{first_free-some}
use ckarta.Registry.Operations.{
  Pin, attach_socket_at, start_async_at, terminate_at, close_at, retire_at, by_cycle, attach_socket,
  start_async, terminate, close_entry, retire, is_pinned,
}
use ckarta.Registry.Pins.{readers, writers, IsSound}
use ckarta.Registry.Pins.Counted.{IsKept, put_entry-IsSound}

-- The pins on the readers and those on the writers of a table that is in use.
pub record IsPinned (r : Registry) (ps ws : List Pin) : Type 0 where
  pub ready : r.initialized ≡ true
  pub of_readers : IsSound readers r ps
  pub of_writers : IsSound writers r ws

module _ (ps ws : List Pin) where
  quiet-IsPinned :
      (r : Registry) (at : ℕ) (d : Connection)
      → IsQuiet (r.entries at).connection d
      → IsPinned r ps ws
      → IsPinned (put_connection r at d) ps ws
  unfolding put_connection put_entry
  quiet-IsPinned r at d q v =
      let f : Entry = record (r.entries at) { connection = d } in
      let kept_reader : IsKept readers (r.entries at) f = record {
        active_kept = refl;
        generation_kept = refl;
        object_kept = q.reader_kept;
        not_closed = q.not_closed;
      } in
      let kept_writer : IsKept writers (r.entries at) f = record {
        active_kept = refl;
        generation_kept = refl;
        object_kept = q.writer_kept;
        not_closed = q.not_closed;
      } in
      record {
        ready = v.ready;
        of_readers = put_entry-IsSound readers r ps at f (inl (kept_reader, refl)) v.of_readers;
        of_writers = put_entry-IsSound writers r ws at f (inl (kept_writer, refl)) v.of_writers;
      }

  unpinned-IsPinned :
      (r : Registry) (at : ℕ) (f : Entry)
      → is_pinned (r.entries at) ≡ false
      → is_pinned f ≡ false
      → IsPinned r ps ws
      → IsPinned (put_entry r at f) ps ws
  unfolding put_entry
  unpinned-IsPinned r at f u w v = record {
    ready = v.ready;
    of_readers =
        put_entry-IsSound readers r ps at f (inr (ground arith, ground arith)) v.of_readers;
    of_writers =
        put_entry-IsSound writers r ws at f (inr (ground arith, ground arith)) v.of_writers;
  }

  attach_socket_at-IsPinned :
      (o : Objects) (r : Registry) (fd : Option ℕ) (l : Lookup)
      → IsPinned r ps ws
      → IsPinned (attach_socket_at o r fd l).1 ps ws
  unfolding attach_socket_at
  attach_socket_at-IsPinned o r fd (refused s) v = v
  attach_socket_at-IsPinned o r fd (found at) v =
      quiet-IsPinned r at (Object.attach_socket o (r.entries at).connection fd).1
        (attach_socket-IsQuiet o (r.entries at).connection fd) v

  pub attach_socket-IsPinned :
      (sys : System) (o : Objects) (r : Registry) (handle : ℕ) (k : Claim) (fd : Option ℕ)
      → IsPinned r ps ws
      → IsPinned (attach_socket sys o r handle k fd).1 ps ws
  unfolding attach_socket
  attach_socket-IsPinned sys o r handle k fd v = elim (Bool-cases (is_some fd)) [
    | inl e ↦ rw e (attach_socket_at-IsPinned o r fd (lookup sys (by_claim k) r handle) v)
    | inr e ↦ rw e v
  ]

  start_async_at-IsPinned :
      (r : Registry) (cycle_id : ℕ) (l : Lookup)
      → IsPinned r ps ws
      → IsPinned (start_async_at r cycle_id l).0 ps ws
  unfolding start_async_at
  start_async_at-IsPinned r cycle_id (refused s) v = v
  start_async_at-IsPinned r cycle_id (found at) v =
      quiet-IsPinned r at (start_async_cycle (r.entries at).connection cycle_id).0
        (start_async_cycle-IsQuiet (r.entries at).connection cycle_id) v

  pub start_async-IsPinned :
      (sys : System) (r : Registry) (handle : ℕ) (k : Claim) (cycle_id : ℕ)
      → IsPinned r ps ws
      → IsPinned (start_async sys r handle k cycle_id).0 ps ws
  unfolding start_async
  start_async-IsPinned sys r handle k cycle_id v =
      start_async_at-IsPinned r cycle_id (lookup sys (by_claim k) r handle) v

  terminate_at-IsPinned :
      (r : Registry) (event : ℕ) (l : Lookup)
      → IsPinned r ps ws
      → IsPinned (terminate_at r event l).0 ps ws
  unfolding terminate_at
  terminate_at-IsPinned r event (refused s) v = v
  terminate_at-IsPinned r event (found at) v =
      quiet-IsPinned r at (try_terminal (r.entries at).connection event).0
        (try_terminal-IsQuiet (r.entries at).connection event) v

  pub terminate-IsPinned :
      (sys : System) (r : Registry) (handle : ℕ) (k : Claim) (cycle_id event : ℕ)
      → IsPinned r ps ws
      → IsPinned (terminate sys r handle k cycle_id event).0 ps ws
  unfolding terminate
  terminate-IsPinned sys r handle k cycle_id event v =
      terminate_at-IsPinned r event (lookup sys (by_cycle k cycle_id) r handle) v

  close_at-IsPinned :
      (close_socket : ℕ → CloseResult) (r : Registry) (l : Lookup)
      → IsPinned r ps ws
      → IsPinned (close_at close_socket r l).0 ps ws
  unfolding close_at put_connection
  close_at-IsPinned close_socket r (refused s) v = v
  close_at-IsPinned close_socket r (found at) v = elim (Bool-cases (is_pinned (r.entries at))) [
    | inl p ↦ rw p v
    | inr p ↦ rw p (
        unpinned-IsPinned r at
          (record (r.entries at) { connection = (close close_socket (r.entries at).connection).0 })
          p p v)
  ]

  pub close_entry-IsPinned :
      (sys : System) (close_socket : ℕ → CloseResult) (r : Registry) (handle : ℕ) (k : Claim)
      → IsPinned r ps ws
      → IsPinned (close_entry sys close_socket r handle k).0 ps ws
  unfolding close_entry
  close_entry-IsPinned sys close_socket r handle k v =
      close_at-IsPinned close_socket r (lookup sys (by_claim k) r handle) v

  retire_at-IsPinned :
      (sys : System) (r : Registry) (l : Lookup)
      → IsPinned r ps ws
      → IsPinned (retire_at sys r l).0 ps ws
  unfolding retire_at
  retire_at-IsPinned sys r (refused s) v = v
  retire_at-IsPinned sys r (found at) v =
      let e = r.entries at in
      elim (Bool-cases
        (is_pinned e || not (state e.connection == closed) || is_some e.connection.socket_fd)) [
          | inl p ↦ rw p v
          | inr p ↦
              let u : is_pinned e ≡ false = ground arith in
              rw p (unpinned-IsPinned r at (record e { active = false }) u u v)
        ]

  pub retire-IsPinned :
      (sys : System) (r : Registry) (handle : ℕ) (k : Claim)
      → IsPinned r ps ws
      → IsPinned (retire sys r handle k).0 ps ws
  unfolding retire
  retire-IsPinned sys r handle k v = retire_at-IsPinned sys r (lookup sys (by_claim k) r handle) v

  register_at-IsPinned :
      (sys : System) (r : Registry) (index : ℕ) (made : ConnectionInit.Made)
      → (r.entries index).active ≡ false
      → IsPinned r ps ws
      → IsPinned (register_at sys r index made).registry ps ws
  unfolding register_at
  register_at-IsPinned sys r index made a v =
      let u : is_pinned (r.entries index) ≡ false =
        ground (arith, v.of_readers.idle index a, v.of_writers.idle index a) in
      let e : Entry = record {
        connection = made.connection;
        generation = next_generation (r.entries index).generation;
        reader_users = 0;
        output_users = 0;
        active = false;
      } in
      elim (Bool-cases (is_ok made.status)) [
        | inl o ↦ rw o (unpinned-IsPinned r index (record e { active = true }) u refl v)
        | inr o ↦ rw o (unpinned-IsPinned r index e u refl v)
      ]

  register_in-IsPinned :
      (sys : System) (r : Registry) (ids : ConnectionInit.Ids) (m : ConnectionInit.Malloc)
      (heap : List ℕ)
      → IsPinned r ps ws
      → (o : Option ℕ) → first_free r.entries 0 capacity ≡ o
      → IsPinned (register_in sys r ids m heap o).registry ps ws
  unfolding register_in
  register_in-IsPinned sys r ids m heap v none e = v
  register_in-IsPinned sys r ids m heap v (some index) e =
      register_at-IsPinned sys r index (ConnectionInit.init (r.entries index).connection ids m heap)
        (first_free-some r.entries 0 capacity index e).0 v

  pub register-IsPinned :
      (sys : System) (r : Registry) (ids : ConnectionInit.Ids) (m : ConnectionInit.Malloc)
      (heap : List ℕ)
      → IsPinned r ps ws
      → IsPinned (register sys r ids m heap).registry ps ws
  unfolding register
  register-IsPinned sys r ids m heap v =
      let w = register_in-IsPinned sys r ids m heap v (first_free r.entries 0 capacity) refl in
      elim (Bool-cases (not r.initialized || ids.connection_id == 0 || ids.request_id == 0)) [
        | inl e ↦ rw e v
        | inr e ↦ elim (Bool-cases sys.locked) [ inl l ↦ rw (e, l) w | inr l ↦ rw (e, l) v ]
      ]
