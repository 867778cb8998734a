-- ===== src/Registry/Pins/Taken.antt =====
-- The acquisitions: what they do to the counts of their own side, and of the other one.
use ckarta.Prelude.{
  ℕ, ◌+◌, ◌^◌, ◌<◌, ◌≡◌, ◌≢◌, refl, ap, ◌∙◌, inl, inr, true, not, ◌||◌, List, ◌∷◌, Option, some,
  ◌==◌, if◌then◌else◌, length, arith, Bool-cases, Option-cases,
}
use ckarta.Connection.{state}
use ckarta.Connection.Objects.{is_some}
use ckarta.Connection.Word.{closed}
use ckarta.Registry.{
  Registry, Entry, System, Claim, Lookup, refused, found, lookup, by_claim, decode_handle,
  put_entry,
}
use ckarta.Registry.Entries.{put_here, lookup-found}
use ckarta.Registry.Operations.{
  Pin, empty_pin, is_empty_pin, acquire_at, reader_acquire, output_acquire, add_reader, add_output,
}
use ckarta.Registry.Pins.{Side, readers, writers, IsLive, IsSound, count-length}
use ckarta.Registry.Pins.Counted.{IsKept, put_entry-IsSound, taken-IsSound}
use ckarta.Registry.Pins.Calm.{IsPinned}

-- The pins that are out once an acquisition has returned this one.
unfoldable pub out : Pin → List Pin → List Pin
out p pins = if is_empty_pin p then pins else p ∷ pins

-- A handle that the lookup has found names its active entry.
pub IsNamed : Registry → ℕ → Lookup → Type 0
IsNamed r handle l =
    (at : ℕ)
    → l ≡ found at
    → (decode_handle handle ≡ some (at, (r.entries at).generation)) × ((r.entries at).active ≡ true)

lookup-IsNamed :
    (sys : System) (r : Registry) (handle : ℕ) (k : Claim)
    → IsNamed r handle (lookup sys (by_claim k) r handle)
unfolding IsNamed
lookup-IsNamed sys r handle k at e =
    let (d, a, c) = lookup-found sys (by_claim k) r handle at e in (d, a)

module _ (s : Side) (more : Entry → Entry) (kept : (e : Entry) → IsKept s e (more e)) where
  taken-IsLive :
      (r : Registry) (handle at object : ℕ)
      → decode_handle handle ≡ some (at, (r.entries at).generation)
      → (r.entries at).active ≡ true
      → s.object_of (r.entries at) ≡ some object
      → IsLive s
          (put_entry r at (more (r.entries at)))
          (record { connection = some at; object = s.object_of (r.entries at); handle = handle })
  unfolding put_entry
  taken-IsLive r handle at object d a o =
      let e = r.entries at in
      let here = put_here r.entries at (more e) in
      let k = kept e in
      record {
        index = at;
        generation = e.generation;
        object = object;
        handle_is = d;
        connection_is = refl;
        object_is = o;
        is_active = ap (λ x. x.active) here ∙ k.active_kept ∙ a;
        generation_is = ap (λ x. x.generation) here ∙ k.generation_kept;
        object_kept = ap s.object_of here ∙ k.object_kept ∙ o;
      }

  pub acquire_at-IsSound :
      ((e : Entry) → s.users e + 1 < 2 ^ 32 → s.users (more e) ≡ s.users e + 1)
      → (r : Registry) (handle : ℕ) (l : Lookup) (pins : List Pin) → IsNamed r handle l
      → length pins + 1 < 2 ^ 32
      → IsSound s r pins
      → let (t, p, st) = acquire_at r handle empty_pin s.object_of more l in
        IsSound s t (out p pins)
  unfolding acquire_at IsNamed out
  acquire_at-IsSound add r handle (refused st) pins n h v = v
  acquire_at-IsSound add r handle (found at) pins n h v =
      let e = r.entries at in
      elim (Bool-cases (state e.connection == closed || not (is_some (s.object_of e)))) [
        | inl x ↦ rw x v
        | inr x ↦
            let (d, a) = n at refl in
            let (object, o) : (object : ℕ) × (s.object_of e ≡ some object) =
              elim (Option-cases (s.object_of e)) [
                | inl z ↦ absurd (ground (arith, z, x))
                | inr w ↦ w
              ] in
            let p : Pin = record {
              connection = some at;
              object = s.object_of e;
              handle = handle;
            } in
            let room : s.users e + 1 < 2 ^ 32 =
              omega (arith, v.counted at, count-length at pins, h) in
            let opened : state e.connection ≢ closed = ground arith in
            rw x (
              taken-IsSound s r pins p at (more e) (kept e) (add e room)
                ((kept e).not_closed opened) refl (taken-IsLive r handle at object d a o)
                ((kept e).active_kept ∙ a) v)
      ]

-- An acquisition on one side leaves the pins of the other.
pub acquire_at-other-IsSound :
    (s : Side) (object_of : Entry → Option ℕ) (more : Entry → Entry)
    → ((e : Entry) → IsKept s e (more e))
    → ((e : Entry) → s.users (more e) ≡ s.users e)
    → (r : Registry) (handle : ℕ) (pin : Pin) (l : Lookup) (pins : List Pin) → IsSound s r pins
    → IsSound s (acquire_at r handle pin object_of more l).0 pins
unfolding acquire_at
acquire_at-other-IsSound s object_of more kept same r handle pin (refused st) pins v = v
acquire_at-other-IsSound s object_of more kept same r handle pin (found at) pins v =
    let e = r.entries at in
    elim (Bool-cases (state e.connection == closed || not (is_some (object_of e)))) [
      | inl x ↦ rw x v
      | inr x ↦ rw x (put_entry-IsSound s r pins at (more e) (inl (kept e, same e)) v)
    ]

acquire_at-initialized :
    (r : Registry) (handle : ℕ) (pin : Pin) (object_of : Entry → Option ℕ) (more : Entry → Entry)
    (l : Lookup)
    → (acquire_at r handle pin object_of more l).0.initialized ≡ r.initialized
unfolding acquire_at put_entry
acquire_at-initialized r handle pin object_of more (refused s) = refl
acquire_at-initialized r handle pin object_of more (found at) = ground arith

reader-IsKept :
    (s : Side) (e : Entry) → s.object_of (add_reader e) ≡ s.object_of e → IsKept s e (add_reader e)
reader-IsKept s e o = record {
  active_kept = refl;
  generation_kept = refl;
  object_kept = o;
  not_closed = λ h. h;
}

output-IsKept :
    (s : Side) (e : Entry) → s.object_of (add_output e) ≡ s.object_of e → IsKept s e (add_output e)
output-IsKept s e o = record {
  active_kept = refl;
  generation_kept = refl;
  object_kept = o;
  not_closed = λ h. h;
}

pub reader_acquire-IsPinned :
    (sys : System) (r : Registry) (handle : ℕ) (k : Claim) (ps ws : List Pin)
    → length ps + 1 < 2 ^ 32
    → IsPinned r ps ws
    → let (t, p, st) = reader_acquire sys r handle k empty_pin in IsPinned t (out p ps) ws
unfolding reader_acquire
reader_acquire-IsPinned sys r handle k ps ws h v =
    let l = lookup sys (by_claim k) r handle in
    record {
      ready = acquire_at-initialized r handle empty_pin readers.object_of add_reader l ∙ v.ready;
      of_readers =
          acquire_at-IsSound readers add_reader (λ e. reader-IsKept readers e refl)
            (λ e b. omega arith) r handle l ps (lookup-IsNamed sys r handle k) h v.of_readers;
      of_writers =
          acquire_at-other-IsSound writers readers.object_of add_reader
            (λ e. reader-IsKept writers e refl) (λ e. refl) r handle empty_pin l ws v.of_writers;
    }

pub output_acquire-IsPinned :
    (sys : System) (r : Registry) (handle : ℕ) (k : Claim) (ps ws : List Pin)
    → length ws + 1 < 2 ^ 32
    → IsPinned r ps ws
    → let (t, p, st) = output_acquire sys r handle k empty_pin in IsPinned t ps (out p ws)
unfolding output_acquire
output_acquire-IsPinned sys r handle k ps ws h v =
    let l = lookup sys (by_claim k) r handle in
    record {
      ready = acquire_at-initialized r handle empty_pin writers.object_of add_output l ∙ v.ready;
      of_readers =
          acquire_at-other-IsSound readers writers.object_of add_output
            (λ e. output-IsKept readers e refl) (λ e. refl) r handle empty_pin l ps v.of_readers;
      of_writers =
          acquire_at-IsSound writers add_output (λ e. output-IsKept writers e refl)
            (λ e b. omega arith) r handle l ws (lookup-IsNamed sys r handle k) h v.of_writers;
    }
