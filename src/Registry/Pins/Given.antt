-- ===== src/Registry/Pins/Given.antt =====
-- The releases: one of a pin that is out ends it, and takes a user from its entry.
use ckarta.Prelude.{
  ◌-◌, ◌≡◌, ◌≢◌, refl, inl, inr, true, false, ◌&&◌, List, if◌then◌else◌, arith, Bool-cases,
}
use ckarta.Registry.{Registry, Entry, System, decode_handle, put_entry}
use ckarta.Registry.Operations.{
  Pin, empty_pin, is_empty_pin, is_set_pin, release_at, reader_release, output_release,
}
use ckarta.Registry.Pins.{
  Side, readers, writers, IsLive, IsSound, Removes, count-here, count-Removes, Each-Removes,
}
use ckarta.Registry.Pins.Counted.{IsKept, put_entry-IsSound, given-IsSound}
use ckarta.Registry.Pins.Calm.{IsPinned}
use ckarta.Status.{minus_one}

-- The pins that are out once a release has left this in place of its pin.
unfoldable pub back : Pin → List Pin → List Pin → List Pin
back q pins rest = if is_empty_pin q then rest else pins

abbrev pub less_reader : Entry → Entry
less_reader e = record e { reader_users = e.reader_users - 1 }

abbrev pub less_output : Entry → Entry
less_output e = record e { output_users = e.output_users - 1 }

-- A pin that is out is live, and its entry counts it.
pub removed-IsLive :
    (s : Side) (r : Registry) (p : Pin) {pins rest : List Pin}
    → Removes p pins rest
    → IsSound s r pins
    → (v : IsLive s r p) × (s.users (r.entries v.index) ≢ 0)
removed-IsLive s r p {pins} {rest} h v =
    let l = (Each-Removes (IsLive s r) p h v.live).0 in
    (
      l,
      λ e. omega (
        arith,
        v.counted l.index,
        count-Removes l.index p h,
        count-here l.index p rest l.connection_is,
        e,
      ),
    )

-- The release of a live pin, with the lock.
pub release_at-IsLive :
    (s : Side) (sys : System) (r : Registry) (p : Pin) (less : Entry → Entry)
    → (v : IsLive s r p) → s.users (r.entries v.index) ≢ 0
    → release_at sys r p (decode_handle p.handle) s.object_of s.users less ≡ (
        if sys.locked
        then (put_entry r v.index (less (r.entries v.index)), empty_pin, sys.unlock)
        else (r, p, minus_one))
unfolding release_at
release_at-IsLive s sys r p less v u =
    rw v.handle_is
      (ground (arith, v.is_active, v.generation_is, v.connection_is, v.object_is, v.object_kept, u))

live_set :
    (s : Side) (r : Registry) (p : Pin)
    → IsLive s r p
    → (is_set_pin p ≡ true) × (is_empty_pin p ≡ false)
unfolding decode_handle
live_set s r p v = ground (arith, v.connection_is, v.object_is, v.handle_is)

pub reader_release-IsLive :
    (sys : System) (r : Registry) (p : Pin)
    → (v : IsLive readers r p) → (r.entries v.index).reader_users ≢ 0
    → reader_release sys r p ≡ (
        if r.initialized && sys.locked
        then (put_entry r v.index (less_reader (r.entries v.index)), empty_pin, sys.unlock)
        else (r, p, minus_one))
unfolding reader_release
reader_release-IsLive sys r p v u =
    let (set, full) = live_set readers r p v in
    ground (arith, set, release_at-IsLive readers sys r p less_reader v u)

pub output_release-IsLive :
    (sys : System) (r : Registry) (p : Pin)
    → (v : IsLive writers r p) → (r.entries v.index).output_users ≢ 0
    → output_release sys r p ≡ (
        if r.initialized && sys.locked
        then (put_entry r v.index (less_output (r.entries v.index)), empty_pin, sys.unlock)
        else (r, p, minus_one))
unfolding output_release
output_release-IsLive sys r p v u =
    let (set, full) = live_set writers r p v in
    ground (arith, set, release_at-IsLive writers sys r p less_output v u)

pub reader_release-IsPinned :
    (sys : System) (r : Registry) (p : Pin) {ps ws rest : List Pin}
    → Removes p ps rest
    → IsPinned r ps ws
    → let (t, q, st) = reader_release sys r p in IsPinned t (back q ps rest) ws
unfolding back put_entry
reader_release-IsPinned sys r p {ps} {ws} {rest} h v =
    let (l, u) = removed-IsLive readers r p h v.of_readers in
    let e = r.entries l.index in
    let kept : (s : Side)
        → s.object_of (less_reader e) ≡ s.object_of e
        → IsKept s e (less_reader e) =
      λ s o. record {
        active_kept = refl;
        generation_kept = refl;
        object_kept = o;
        not_closed = λ n. n;
      } in
    elim (Bool-cases (r.initialized && sys.locked)) [
      | inl y ↦
          rw (reader_release-IsLive sys r p l u, y)
            (record {
              ready = v.ready;
              of_readers =
                  given-IsSound readers r p l.index (less_reader e) h (kept readers refl) refl
                    l.connection_is v.of_readers;
              of_writers =
                  put_entry-IsSound writers r ws l.index (less_reader e)
                    (inl (kept writers refl, refl)) v.of_writers;
            })
      | inr n ↦ rw (reader_release-IsLive sys r p l u, n, (live_set readers r p l).1) v
    ]

pub output_release-IsPinned :
    (sys : System) (r : Registry) (p : Pin) {ps ws rest : List Pin}
    → Removes p ws rest
    → IsPinned r ps ws
    → let (t, q, st) = output_release sys r p in IsPinned t ps (back q ws rest)
unfolding back put_entry
output_release-IsPinned sys r p {ps} {ws} {rest} h v =
    let (l, u) = removed-IsLive writers r p h v.of_writers in
    let e = r.entries l.index in
    let kept : (s : Side)
        → s.object_of (less_output e) ≡ s.object_of e
        → IsKept s e (less_output e) =
      λ s o. record {
        active_kept = refl;
        generation_kept = refl;
        object_kept = o;
        not_closed = λ n. n;
      } in
    elim (Bool-cases (r.initialized && sys.locked)) [
      | inl y ↦
          rw (output_release-IsLive sys r p l u, y)
            (record {
              ready = v.ready;
              of_readers =
                  put_entry-IsSound readers r ps l.index (less_output e)
                    (inl (kept readers refl, refl)) v.of_readers;
              of_writers =
                  given-IsSound writers r p l.index (less_output e) h (kept writers refl) refl
                    l.connection_is v.of_writers;
            })
      | inr n ↦ rw (output_release-IsLive sys r p l u, n, (live_set writers r p l).1) v
    ]
