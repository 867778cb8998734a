-- ===== src/Registry/Pins/Steps.antt =====
-- The table in use: calls of all the operations of c/connection/ck_connection_registry.c, in any
-- order, each of which holds the lock from its start to its end. `World` keeps the pins that are out
-- beside the table; a user hands back only pins that it has.
use ckarta.Prelude.{ℕ, ◌+◌, ◌^◌, ◌<◌, ◌≡◌, refl, sym, false, List, [], Option, length}
use ckarta.Connection.{CloseResult}
use ckarta.Connection.Init as ConnectionInit
use ckarta.Connection.Objects.{Objects}
use ckarta.Registry.{Registry, Entry, System, Claim, init, register}
use ckarta.Registry.Operations.{
  Pin, empty_pin, attach_socket, start_async, terminate, reader_acquire, output_acquire,
  reader_release, output_release, close_entry, retire,
}
use ckarta.Registry.Pins.{Removes, count}
use ckarta.Registry.Pins.Calm.{
  IsPinned, attach_socket-IsPinned, start_async-IsPinned, terminate-IsPinned, close_entry-IsPinned,
  retire-IsPinned, register-IsPinned,
}
use ckarta.Registry.Pins.Taken.{out, reader_acquire-IsPinned, output_acquire-IsPinned}
use ckarta.Registry.Pins.Given.{back, reader_release-IsPinned, output_release-IsPinned}

pub record World : Type 0 where
  pub registry : Registry
  pub reader_pins : List Pin
  pub output_pins : List Pin

-- An acquisition counts in 32 bits.
pub data Step (w : World) : World → Type 0 where
  registers :
      (sys : System) (ids : ConnectionInit.Ids) (m : ConnectionInit.Malloc) (heap : List ℕ)
      → Step w (record w { registry = (register sys w.registry ids m heap).registry })
  attaches :
      (sys : System) (o : Objects) (handle : ℕ) (k : Claim) (fd : Option ℕ)
      → Step w (record w { registry = (attach_socket sys o w.registry handle k fd).1 })
  starts_async :
      (sys : System) (handle : ℕ) (k : Claim) (cycle_id : ℕ)
      → Step w (record w { registry = (start_async sys w.registry handle k cycle_id).0 })
  terminates :
      (sys : System) (handle : ℕ) (k : Claim) (cycle_id event : ℕ)
      → Step w (record w { registry = (terminate sys w.registry handle k cycle_id event).0 })
  closes :
      (sys : System) (close_socket : ℕ → CloseResult) (handle : ℕ) (k : Claim)
      → Step w (record w { registry = (close_entry sys close_socket w.registry handle k).0 })
  retires :
      (sys : System) (handle : ℕ) (k : Claim)
      → Step w (record w { registry = (retire sys w.registry handle k).0 })
  acquires_reader :
      (sys : System) (handle : ℕ) (k : Claim)
      → length w.reader_pins + 1 < 2 ^ 32
      → Step w (record w {
        registry = (reader_acquire sys w.registry handle k empty_pin).0;
        reader_pins = out (reader_acquire sys w.registry handle k empty_pin).1 w.reader_pins;
      })
  acquires_output :
      (sys : System) (handle : ℕ) (k : Claim)
      → length w.output_pins + 1 < 2 ^ 32
      → Step w (record w {
        registry = (output_acquire sys w.registry handle k empty_pin).0;
        output_pins = out (output_acquire sys w.registry handle k empty_pin).1 w.output_pins;
      })
  releases_reader :
      (sys : System) (p : Pin) (rest : List Pin)
      → Removes p w.reader_pins rest
      → Step w (record w {
        registry = (reader_release sys w.registry p).0;
        reader_pins = back (reader_release sys w.registry p).1 w.reader_pins rest;
      })
  releases_output :
      (sys : System) (p : Pin) (rest : List Pin)
      → Removes p w.output_pins rest
      → Step w (record w {
        registry = (output_release sys w.registry p).0;
        output_pins = back (output_release sys w.registry p).1 w.output_pins rest;
      })

-- The zeros of the memory that `init` clears.
abbrev pub IsCleared : Entry → Type 0
IsCleared e = (e.active ≡ false) × (e.reader_users ≡ 0) × (e.output_users ≡ 0)

pub data Reach (zeros : Entry) : World → Type 0 where
  here : Reach zeros (record { registry = init zeros; reader_pins = []; output_pins = [] })
  next : {w u : World} → Reach zeros w → Step w u → Reach zeros u

abbrev pub Holds : World → Type 0
Holds w = IsPinned w.registry w.reader_pins w.output_pins

Step-IsPinned : {w u : World} → Step w u → Holds w → Holds u
Step-IsPinned (registers sys ids m heap) v = register-IsPinned _ _ sys _ ids m heap v
Step-IsPinned (attaches sys o handle k fd) v = attach_socket-IsPinned _ _ sys o _ handle k fd v
Step-IsPinned (starts_async sys handle k cycle_id) v =
    start_async-IsPinned _ _ sys _ handle k cycle_id v
Step-IsPinned (terminates sys handle k cycle_id event) v =
    terminate-IsPinned _ _ sys _ handle k cycle_id event v
Step-IsPinned (closes sys close_socket handle k) v =
    close_entry-IsPinned _ _ sys close_socket _ handle k v
Step-IsPinned (retires sys handle k) v = retire-IsPinned _ _ sys _ handle k v
Step-IsPinned {w} (acquires_reader sys handle k h) v =
    reader_acquire-IsPinned sys w.registry handle k w.reader_pins w.output_pins h v
Step-IsPinned {w} (acquires_output sys handle k h) v =
    output_acquire-IsPinned sys w.registry handle k w.reader_pins w.output_pins h v
Step-IsPinned {w} (releases_reader sys p rest h) v = reader_release-IsPinned sys w.registry p h v
Step-IsPinned {w} (releases_output sys p rest h) v = output_release-IsPinned sys w.registry p h v

init-IsPinned : (zeros : Entry) → IsCleared zeros → IsPinned (init zeros) [] []
unfolding init count
init-IsPinned zeros (a, b, c) = record {
  ready = refl;
  of_readers = record {
    counted = λ i. sym b;
    live = tt;
    idle = λ i h. b;
    not_closed = λ i h. absurd (h b);
  };
  of_writers = record {
    counted = λ i. sym c;
    live = tt;
    idle = λ i h. c;
    not_closed = λ i h. absurd (h c);
  };
}

pub Reach-IsPinned : {zeros : Entry} {w : World} → IsCleared zeros → Reach zeros w → Holds w
Reach-IsPinned {zeros} z here = init-IsPinned zeros z
Reach-IsPinned z (next r s) = Step-IsPinned s (Reach-IsPinned z r)
