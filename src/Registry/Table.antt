-- ===== src/Registry/Table.antt =====
-- The registration of c/connection/ck_connection_registry.c: what the handles find after it, and when
-- a slot gives out the same handle again.
use ckarta.Prelude.{
  ℕ, zero, suc, ◌+◌, ◌-◌, ◌%◌, ◌^◌, ◌<◌, ◌≡◌, ◌≢◌, ◌↔◌, refl, sym, ap, ◌∙◌, ◌⊎◌, inl, inr, true,
  false, not, ◌||◌, List, Option, none, some, ◌==◌, arith, Bool-cases,
}
use ckarta.Connection.Init as ConnectionInit
use ckarta.Registry.{
  Registry, Entry, System, Registered, capacity, is_ok, make_handle, decode_handle, find, find_at,
  put, put_entry, first_free, next_generation, register, register_in, register_at,
}
use ckarta.Registry.Entries.{put_here, first_free-some}
use ckarta.Status.{ok, minus_one}
use ckarta.Registry.Handles.{decode_handle-make_handle, make_handle-decode_handle}

-- What a registration does to the handles. `unchanged` is one that gives none.
pub data Outcome (r : Registry) (ids : ConnectionInit.Ids) (x : Registered) : Type 0 where
  unchanged :
      x.handle ≡ none
      → x.status ≢ ok
      → ((handle : ℕ) → find x.registry handle ≡ find r handle)
      → Outcome r ids x
  given :
      (handle at : ℕ)
      → x.handle ≡ some handle
      → find r handle ≡ none
      → find x.registry handle ≡ some at
      → (x.registry.entries at).connection.request_id ≡ ids.request_id
      → ((other : ℕ) → (other ≡ handle) ⊎ (find x.registry other ≡ find r other))
      → Outcome r ids x

next_generation-pos : (g : ℕ) → next_generation g ≢ 0
unfolding next_generation
next_generation-pos g e = ground arith

-- Over an entry that is not active, only the handle of the new one finds something else.
find_at-put :
    (entries : ℕ → Entry) (at : ℕ) (e : Entry) (o : Option (ℕ × ℕ))
    → (entries at).active ≡ false
    → (e.active ≡ false) ⊎ (o ≢ some (at, e.generation))
    → find_at (put entries at e) o ≡ find_at entries o
unfolding find_at put
find_at-put entries at e none a h = refl
find_at-put entries at e (some (i, g)) a (inl h) = ground arith
find_at-put entries at e (some (i, g)) a (inr h) =
    let other : (i ≡ at) → (g ≢ e.generation) = λ x y. h (rw (x, y) refl) in ground arith

put-unchanged :
    (r : Registry) (at : ℕ) (e : Entry) (handle : ℕ)
    → (r.entries at).active ≡ false
    → (e.active ≡ false) ⊎ (decode_handle handle ≢ some (at, e.generation))
    → find (put_entry r at e) handle ≡ find r handle
unfolding put_entry find
put-unchanged r at e handle a h = find_at-put r.entries at e (decode_handle handle) a h

put-others :
    (r : Registry) (at : ℕ) (e : Entry) (other : ℕ)
    → (r.entries at).active ≡ false
    → (other ≡ make_handle at e.generation) ⊎ (find (put_entry r at e) other ≡ find r other)
put-others r at e other a = elim (Bool-cases (other == make_handle at e.generation)) [
  | inl y ↦ inl (ground arith)
  | inr n ↦
      let differs : other ≢ make_handle at e.generation = ground arith in
      inr (
        put-unchanged r at e other a
          (inr (λ x. differs (sym (make_handle-decode_handle other at e.generation x).0))))
]

find-put :
    (r : Registry) (at : ℕ) (e : Entry)
    → at < capacity
    → e.generation ≢ 0
    → e.active ≡ true
    → find (put_entry r at e) (make_handle at e.generation) ≡ some at
unfolding put_entry find find_at
find-put r at e h g a =
    rw (decode_handle-make_handle at e.generation h g) (ground (arith, put_here r.entries at e, a))

inactive-unfound :
    (r : Registry) (at g : ℕ)
    → at < capacity
    → g ≢ 0
    → (r.entries at).active ≡ false
    → find r (make_handle at g) ≡ none
unfolding find find_at
inactive-unfound r at g h n a = rw (decode_handle-make_handle at g h n) (ground (arith, a))

register_at-Outcome :
    (sys : System) (r : Registry) (ids : ConnectionInit.Ids) (at : ℕ) (made : ConnectionInit.Made)
    → at < capacity
    → (r.entries at).active ≡ false
    → (made.status ≡ ok → made.connection.request_id ≡ ids.request_id)
    → Outcome r ids (register_at sys r at made)
unfolding register_at put_entry
register_at-Outcome sys r ids at made h a i =
    let g = next_generation (r.entries at).generation in
    let pos = next_generation-pos (r.entries at).generation in
    let e : Entry = record {
      connection = made.connection;
      generation = g;
      reader_users = 0;
      output_users = 0;
      active = false;
    } in
    let f : Entry = record e { active = true } in
    elim (Bool-cases (is_ok made.status)) [
      | inl o ↦ rw o (
          given (make_handle at g) at refl (inactive-unfound r at g h pos a)
            (find-put r at f h pos refl)
            (ap (λ x. x.connection.request_id) (put_here r.entries at f) ∙ i (ground arith))
            (λ other. put-others r at f other a))
      | inr o ↦
          rw o (
            unchanged refl (λ x. ground arith) (λ handle. put-unchanged r at e handle a (inl refl)))
    ]

register_in-Outcome :
    (sys : System) (r : Registry) (ids : ConnectionInit.Ids) (m : ConnectionInit.Malloc)
    (heap : List ℕ) (o : Option ℕ)
    → first_free r.entries 0 capacity ≡ o
    → Outcome r ids (register_in sys r ids m heap o)
unfolding register_in
register_in-Outcome sys r ids m heap none e = unchanged refl (λ x. ground arith) (λ handle. refl)
register_in-Outcome sys r ids m heap (some at) e =
    let (a, l, u) = first_free-some r.entries 0 capacity at e in
    register_at-Outcome sys r ids at (ConnectionInit.init (r.entries at).connection ids m heap)
      (omega arith) a (λ s. (ConnectionInit.init-ids (r.entries at).connection ids m heap s).1)

-- `ck_connection_registry_register` on any table: if it gives a handle, no entry was found under that
-- handle before, and now the entry of the new connection is; every other handle finds what it found.
-- If it gives none, it does not answer 0 and every handle finds what it found.
pub register-Outcome :
    (sys : System) (r : Registry) (ids : ConnectionInit.Ids) (m : ConnectionInit.Malloc)
    (heap : List ℕ)
    → Outcome r ids (register sys r ids m heap)
unfolding register
register-Outcome sys r ids m heap =
    let x = register_in-Outcome sys r ids m heap (first_free r.entries 0 capacity) refl in
    let none_given : (minus_one ≢ ok) = λ e. ground arith in
    elim (Bool-cases (not r.initialized || ids.connection_id == 0 || ids.request_id == 0)) [
      | inl e ↦ rw e (unchanged refl none_given (λ handle. refl))
      | inr e ↦ elim (Bool-cases sys.locked) [
        | inl l ↦ rw (e, l) x
        | inr l ↦ rw (e, l) (unchanged refl none_given (λ handle. refl))
      ]
    ]

-- The generation of a slot after so many registrations.
unfoldable pub generation_after : ℕ → ℕ → ℕ
generation_after zero g = g
generation_after (suc k) g = next_generation (generation_after k g)

generation_after-lem :
    (k g : ℕ) → 0 < g → g < 2 ^ 32 → generation_after k g ≡ (g - 1 + k) % (2 ^ 32 - 1) + 1
unfolding generation_after next_generation
generation_after-lem zero g h l = omega arith
generation_after-lem (suc k) g h l = ground (arith, generation_after-lem k g h l)

-- A slot gives out the handle of a generation again after a number of registrations exactly if
-- that number is a multiple of 2^32 - 1: until then a handle that was retired stays unused.
pub handle_again :
    (at g k : ℕ)
    → at < capacity
    → 0 < g
    → g < 2 ^ 32
    → (make_handle at (generation_after k g) ≡ make_handle at g) ↔ (k % (2 ^ 32 - 1) ≡ 0)
unfolding make_handle
handle_again at g k h p l =
    let e = generation_after-lem k g p l in (λ x. omega (arith, x, e), λ x. omega (arith, x, e))
