-- ===== src/Registry/Entries.antt =====
-- What the operations of c/connection/ck_connection_registry.c share in their proofs: one entry of the
-- table changes, and the operation on its connection is one of ck_connection.c.
use ckarta.Prelude.{ℕ, zero, suc, ◌+◌, ◌<◌, ◌≤◌, ◌≡◌, ◌≢◌, true, false, Option, none, some, arith}
use ckarta.Connection.{Connection}
use ckarta.Registry.{
  Registry, Entry, System, find, find_at, lookup, checked, found, put, is_ok, first_free,
  decode_handle,
}
use ckarta.Status.{Status}

pub put_here : (entries : ℕ → Entry) (at : ℕ) (e : Entry) → put entries at e at ≡ e
unfolding put
put_here entries at e = ground arith

pub put_elsewhere :
    (entries : ℕ → Entry) (at : ℕ) (e : Entry) (i : ℕ) → i ≢ at → put entries at e i ≡ entries i
unfolding put
put_elsewhere entries at e i n = ground arith

find_at-some :
    (entries : ℕ → Entry) (o : Option (ℕ × ℕ)) (at : ℕ)
    → find_at entries o ≡ some at
    → (o ≡ some (at, (entries at).generation)) × ((entries at).active ≡ true)
unfolding find_at
find_at-some entries none at e = absurd (ground arith)
find_at-some entries (some (index, generation)) at e = ground arith

-- The entry found is the one that the handle names.
pub find-some :
    (r : Registry) (handle at : ℕ)
    → find r handle ≡ some at
    → (decode_handle handle ≡ some (at, (r.entries at).generation)) × ((r.entries at).active ≡ true)
unfolding find
find-some r handle at e = find_at-some r.entries (decode_handle handle) at e

checked-found :
    (check : Connection → Status) (r : Registry) (o : Option ℕ) (at : ℕ)
    → checked check r o ≡ found at
    → (o ≡ some at) × (is_ok (check (r.entries at).connection) ≡ true)
unfolding checked
checked-found check r none at e = absurd (ground arith)
checked-found check r (some i) at e = ground arith

-- The entry that a call works on is the active one that its handle names.
pub lookup-found :
    (sys : System) (check : Connection → Status) (r : Registry) (handle at : ℕ)
    → lookup sys check r handle ≡ found at
    → (decode_handle handle ≡ some (at, (r.entries at).generation))
      × ((r.entries at).active ≡ true)
      × (is_ok (check (r.entries at).connection) ≡ true)
unfolding lookup
lookup-found sys check r handle at e =
    let (f, c) = checked-found check r (find r handle) at (ground arith) in
    let (d, a) = find-some r handle at f in (d, a, c)

pub first_free-some :
    (entries : ℕ → Entry) (index n i : ℕ)
    → first_free entries index n ≡ some i
    → ((entries i).active ≡ false) × (index ≤ i) × (i < index + n)
unfolding first_free
first_free-some entries index zero i e = absurd (ground arith)
first_free-some entries index (suc n) i e = ground (arith, first_free-some entries (index + 1) n i)

pub first_free-none :
    (entries : ℕ → Entry) (index n i : ℕ)
    → first_free entries index n ≡ none
    → index ≤ i
    → i < index + n
    → (entries i).active ≡ true
unfolding first_free
first_free-none entries index zero i e l u = absurd (omega arith)
first_free-none entries index (suc n) i e l u =
    ground (arith, first_free-none entries (index + 1) n i)
