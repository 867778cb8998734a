-- ===== src/Registry/Pins/Run.antt =====
-- What the pins that are out promise, whatever the calls on the table have been.
use ckarta.Prelude.{
  ℕ, zero, suc, ◌+◌, ◌<◌, ◌≤◌, ◌≡◌, ◌≢◌, refl, Bool, true, List, [], ◌∷◌, some, if◌then◌else◌,
  arith,
}
use ckarta.Connection.{CloseResult, state}
use ckarta.Connection.Word.{closed}
use ckarta.Registry.{
  Registry, Entry, System, Claim, Lookup, refused, found, lookup, by_claim, capacity, find, find_at,
}
use ckarta.Registry.Entries.{lookup-found}
use ckarta.Registry.Handles.{make_handle-decode_handle}
use ckarta.Registry.Operations.{
  Pin, empty_pin, reader_release, output_release, close_entry, close_at, retire, retire_at,
  is_pinned, count_active, active_count, destroy,
}
use ckarta.Registry.Pins.{Side, readers, writers, IsLive, Each, Removes, there}
use ckarta.Registry.Pins.Given.{removed-IsLive, reader_release-IsLive, output_release-IsLive}
use ckarta.Status.{Status, minus_one}
use ckarta.Registry.Pins.Steps.{World, Reach, IsCleared, Holds, Reach-IsPinned}

count_active-pos :
    (entries : ℕ → Entry) (index n i : ℕ)
    → (entries i).active ≡ true
    → index ≤ i
    → i < index + n
    → count_active entries index n ≢ 0
unfolding count_active
count_active-pos entries index zero i a l u e = omega arith
count_active-pos entries index (suc n) i a l u e =
    ground (arith, count_active-pos entries (index + 1) n i a)

close_at-refuses :
    (close_socket : ℕ → CloseResult) (r : Registry) (l : Lookup)
    → ((at : ℕ) → l ≡ found at → is_pinned (r.entries at) ≡ true)
    → (close_at close_socket r l).0 ≡ r
unfolding close_at
close_at-refuses close_socket r (refused s) h = refl
close_at-refuses close_socket r (found at) h = rw (h at refl) refl

retire_at-refuses :
    (sys : System) (r : Registry) (l : Lookup)
    → ((at : ℕ) → l ≡ found at → is_pinned (r.entries at) ≡ true)
    → (retire_at sys r l).0 ≡ r
unfolding retire_at
retire_at-refuses sys r (refused s) h = refl
retire_at-refuses sys r (found at) h = rw (h at refl) refl

destroy-refuses :
    (sys : System) (made : Bool) (r : Registry) (i : ℕ)
    → (r.entries i).active ≡ true
    → i < capacity
    → (destroy sys made r).0 ≡ r
unfolding destroy active_count
destroy-refuses sys made r i a h =
    let n = count_active-pos r.entries 0 capacity i a (omega arith) h in ground (arith, n)

-- What a pin is good for. `release` is the release of its side.
pub record IsSafe (s : Side) (release : System → Registry → Pin → Registry × Pin × Status)
    (r : Registry) (p : Pin) : Type 0 where
  pub at : ℕ
  pub object : ℕ
  pub pinned : (p.connection ≡ some at) × (p.object ≡ some object)
  pub handle_found : find r p.handle ≡ some at
  pub object_alive : s.object_of (r.entries at) ≡ some object
  pub not_closed : state (r.entries at).connection ≢ closed
  pub released : (sys : System) → (release sys r p).1 ≡ (if sys.locked then empty_pin else p)
  pub answers :
      (sys : System) → (release sys r p).2 ≡ (if sys.locked then sys.unlock else minus_one)
  pub close_refused :
      (sys : System) (close_socket : ℕ → CloseResult) (k : Claim)
      → (close_entry sys close_socket r p.handle k).0 ≡ r
  pub retire_refused : (sys : System) (k : Claim) → (retire sys r p.handle k).0 ≡ r
  pub destroy_refused : (sys : System) (made : Bool) → (destroy sys made r).0 ≡ r

live-IsSafe :
    (s : Side) (release : System → Registry → Pin → Registry × Pin × Status) (r : Registry)
    (p : Pin)
    → (v : IsLive s r p) → is_pinned (r.entries v.index) ≡ true
    → state (r.entries v.index).connection ≢ closed
    → ((sys : System) → (release sys r p).1 ≡ (if sys.locked then empty_pin else p))
    → ((sys : System) → (release sys r p).2 ≡ (if sys.locked then sys.unlock else minus_one))
    → IsSafe s release r p
unfolding find find_at close_entry retire
live-IsSafe s release r p v pins opened done answer =
    let named : (sys : System) (k : Claim) (i : ℕ)
        → lookup sys (by_claim k) r p.handle ≡ found i
        → is_pinned (r.entries i) ≡ true =
      λ sys k i e.
        ground (arith, lookup-found sys (by_claim k) r p.handle i e, v.handle_is, pins) in
    let (same, bound, g) = make_handle-decode_handle p.handle v.index v.generation v.handle_is in
    record {
      at = v.index;
      object = v.object;
      pinned = (v.connection_is, v.object_is);
      handle_found = rw v.handle_is (ground (arith, v.is_active, v.generation_is));
      object_alive = v.object_kept;
      not_closed = opened;
      released = done;
      answers = answer;
      close_refused = λ sys close_socket k.
          close_at-refuses close_socket r (lookup sys (by_claim k) r p.handle) (named sys k);
      retire_refused =
          λ sys k. retire_at-refuses sys r (lookup sys (by_claim k) r p.handle) (named sys k);
      destroy_refused = λ sys made. destroy-refuses sys made r v.index v.is_active bound;
    }

Each-removed :
    (P : Pin → Type 0) (pins : List Pin)
    → ((p : Pin) (rest : List Pin) → Removes p pins rest → P p)
    → Each P pins
Each-removed P [] f = tt
Each-removed P (p ∷ pins) f =
    (f p pins Removes.here, Each-removed P pins (λ q rest h. f q (p ∷ rest) (there h)))

reader-IsSafe :
    (w : World) (p : Pin) (rest : List Pin)
    → Holds w
    → Removes p w.reader_pins rest
    → IsSafe readers reader_release w.registry p
reader-IsSafe w p rest v h =
    let r = w.registry in
    let (l, u) = removed-IsLive readers r p h v.of_readers in
    live-IsSafe readers reader_release r p l (ground (arith, u)) (v.of_readers.not_closed l.index u)
      (λ sys. ground (arith, reader_release-IsLive sys r p l u, v.ready))
      (λ sys. ground (arith, reader_release-IsLive sys r p l u, v.ready))

output-IsSafe :
    (w : World) (p : Pin) (rest : List Pin)
    → Holds w
    → Removes p w.output_pins rest
    → IsSafe writers output_release w.registry p
output-IsSafe w p rest v h =
    let r = w.registry in
    let (l, u) = removed-IsLive writers r p h v.of_writers in
    live-IsSafe writers output_release r p l (ground (arith, u)) (v.of_writers.not_closed l.index u)
      (λ sys. ground (arith, output_release-IsLive sys r p l u, v.ready))
      (λ sys. ground (arith, output_release-IsLive sys r p l u, v.ready))

-- Whatever calls the threads make, in whatever order, each pin on a reader or on a writer that was
-- acquired and not yet released is good: its handle finds the entry that it names, which still has
-- the object pinned and is not closed; the release of it succeeds, if the lock is got; and until
-- then neither closing nor retiring the entry, nor destroying the table, changes anything. A thread
-- releases only pins that it has, and fewer than 2^32 pins of a side are out.
pub Reach-IsSafe :
    {zeros : Entry} {w : World}
    → IsCleared zeros
    → Reach zeros w
    → Each (IsSafe readers reader_release w.registry) w.reader_pins
      × Each (IsSafe writers output_release w.registry) w.output_pins
Reach-IsSafe {zeros} {w} z reach =
    let v = Reach-IsPinned z reach in
    (
      Each-removed (IsSafe readers reader_release w.registry) w.reader_pins
          (λ p rest h. reader-IsSafe w p rest v h),
      Each-removed (IsSafe writers output_release w.registry) w.output_pins
          (λ p rest h. output-IsSafe w p rest v h),
    )
