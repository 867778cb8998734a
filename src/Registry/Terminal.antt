-- ===== src/Registry/Terminal.antt =====
-- Two terminal events for the connection of one handle: the first one wins.
use ckarta.Prelude.{
  ℕ, ◌≤◌, ◌<◌, ◌≡◌, refl, sym, ap, true, false, not, ◌||◌, ◌⊎◌, inl, inr, Option, none, some, ◌==◌,
  if◌then◌else◌, arith,
}
use ckarta.Status.{Status}
use ckarta.Connection.{
  Connection, try_terminal, terminal_step, claimed, already_same, already_different, validate_cycle,
}
use ckarta.Connection.Word.{closing, last_event, unpack_state, unpack_cycle}
use ckarta.Connection.Lifecycle.{try_terminal-claims, try_terminal-twice}
use ckarta.Registry.{
  Registry, Entry, System, Claim, Lookup, refused, found, lookup, checked, find, find_at, put,
  put_entry, put_connection, is_ok, decode_handle,
}
use ckarta.Registry.Operations.{terminate, terminate_at, by_cycle}
use ckarta.Registry.Entries.{lookup-found, put_here}

claimed-open :
    (c : Connection) (event : ℕ)
    → (try_terminal c event).1 ≡ claimed
    → (unpack_state c.lifecycle < closing) × (event ≤ last_event)
unfolding try_terminal terminal_step
claimed-open c event h = ground arith

try_terminal-tokens :
    (c : Connection) (event : ℕ)
    → let d = (try_terminal c event).0 in
      (d.request_id ≡ c.request_id)
      × (d.owner_token ≡ c.owner_token)
      × (d.lifetime_token ≡ c.lifetime_token)
unfolding try_terminal terminal_step
try_terminal-tokens c event = ground arith

validate_cycle-same :
    (c d : Connection) (k : Claim) (cycle_id : ℕ)
    → d.request_id ≡ c.request_id
    → d.owner_token ≡ c.owner_token
    → d.lifetime_token ≡ c.lifetime_token
    → unpack_cycle d.lifecycle ≡ unpack_cycle c.lifecycle
    → by_cycle k cycle_id d ≡ by_cycle k cycle_id c
unfolding validate_cycle
validate_cycle-same c d k cycle_id a b e f = rw (a, b, e, f) refl

find_at-same :
    (entries : ℕ → Entry) (e : Entry) (o : Option (ℕ × ℕ)) (at : ℕ)
    → find_at entries o ≡ some at
    → e.active ≡ (entries at).active
    → e.generation ≡ (entries at).generation
    → find_at (put entries at e) o ≡ some at
unfolding find_at put
find_at-same entries e none at h a g = ground arith
find_at-same entries e (some (index, generation)) at h a g = ground arith

found-is_open :
    (sys : System) (check : Connection → Status) (r : Registry) (handle at : ℕ)
    → lookup sys check r handle ≡ found at
    → not r.initialized || not sys.locked ≡ false
unfolding lookup
found-is_open sys check r handle at h = ground arith

checked-same :
    (check : Connection → Status) (r : Registry) (o : Option ℕ) (at : ℕ) (c : Connection)
    → o ≡ some at
    → check c ≡ check (r.entries at).connection
    → is_ok (check (r.entries at).connection) ≡ true
    → checked check (put_connection r at c) o ≡ found at
unfolding checked put_connection put_entry
checked-same check r o at c e k h =
    let changed : Entry = record (r.entries at) { connection = c } in
    rw (e, put_here r.entries at changed, k, h) refl

entry_found :
    (entries : ℕ → Entry) (o : Option (ℕ × ℕ)) (at : ℕ)
    → o ≡ some (at, (entries at).generation)
    → (entries at).active ≡ true
    → find_at entries o ≡ some at
unfolding find_at
entry_found entries o at d a = rw d (ground (arith, a))

-- The handle still finds the entry when its connection has changed but not its tokens.
lookup-same :
    (sys : System) (check : Connection → Status) (r : Registry) (handle at : ℕ) (c : Connection)
    → lookup sys check r handle ≡ found at
    → check c ≡ check (r.entries at).connection
    → lookup sys check (put_connection r at c) handle ≡ found at
unfolding lookup find put_connection put_entry
lookup-same sys check r handle at c h k =
    let (d, a, good) = lookup-found sys check r handle at h in
    let before : find_at r.entries (decode_handle handle) ≡ some at =
      entry_found r.entries (decode_handle handle) at d a in
    let changed : Entry = record (r.entries at) { connection = c } in
    let after = find_at-same r.entries changed (decode_handle handle) at before refl refl in
    rw (found-is_open sys check r handle at h)
      (checked-same check r (find (put_connection r at c) handle) at c after k good)

terminate_at-claimed :
    (r p : Registry) (event : ℕ) (l : Lookup)
    → terminate_at r event l ≡ (p, claimed)
    → ((s : Status) × (l ≡ refused s) × (s ≡ claimed))
      ⊎ ((at : ℕ) × (l ≡ found at)
          × (p ≡ put_connection r at (try_terminal (r.entries at).connection event).0)
          × ((try_terminal (r.entries at).connection event).1 ≡ claimed))
unfolding terminate_at
terminate_at-claimed r p event (refused s) h = inl (s, refl, ap (λ x. x.1) h)
terminate_at-claimed r p event (found at) h = inr (at, refl, sym (ap (λ x. x.0) h), ap (λ x. x.1) h)

refused-not_claimed :
    (sys : System) (check : Connection → Status) (r : Registry) (handle : ℕ) (s : Status)
    → lookup sys check r handle ≡ refused s
    → s ≡ claimed
    → ⊥
unfolding lookup checked
refused-not_claimed sys check r handle s h k = ground arith

put_again :
    (entries : ℕ → Entry) (at : ℕ) (e : Entry) (i : ℕ)
    → put (put entries at e) at e i ≡ put entries at e i
unfolding put
put_again entries at e i = ground arith

put_connection-again :
    (r : Registry) (at : ℕ) (c : Connection)
    → put_connection (put_connection r at c) at c ≡ put_connection r at c
unfolding put_connection put_entry
put_connection-again r at c =
    let e : Entry = record (r.entries at) { connection = c } in
    rw (put_here r.entries at e) (λ i. record r { entries = λ x. put_again r.entries at e x i })

connection_put :
    (r : Registry) (at : ℕ) (c : Connection) → ((put_connection r at c).entries at).connection ≡ c
unfolding put_connection put_entry
connection_put r at c =
    ap (λ e. e.connection) (put_here r.entries at (record (r.entries at) { connection = c }))

terminate_at-second :
    (r : Registry) (at : ℕ) (c d : Connection) (second : ℕ) (s : Status)
    → try_terminal c second ≡ (d, s)
    → d ≡ c
    → terminate_at (put_connection r at c) second (found at) ≡ (put_connection r at c, s)
unfolding terminate_at
terminate_at-second r at c d second s h e =
    rw (connection_put r at c, h, e) (ap (λ x. (x, s)) (put_connection-again r at c))

-- The first terminal event for a connection wins: once a call of `terminate` has claimed it, any
-- further one with the same handle, tokens and cycle, and one of the five events, changes nothing and
-- answers ALREADY_SAME exactly if it brings the same event, and ALREADY_DIFFERENT if not.
pub terminate-twice :
    (sys : System) (r p : Registry) (handle : ℕ) (k : Claim) (cycle_id first second : ℕ)
    → terminate sys r handle k cycle_id first ≡ (p, claimed)
    → second ≤ last_event
    → terminate sys p handle k cycle_id second
      ≡ (p, if first == second then already_same else already_different)
unfolding terminate
terminate-twice sys r p handle k cycle_id first second h l =
    elim (terminate_at-claimed r p first (lookup sys (by_cycle k cycle_id) r handle) h) [
      | inl (s, e, f) ↦ absurd (refused-not_claimed sys (by_cycle k cycle_id) r handle s e f)
      | inr (at, e, q, won) ↦
          let c = (r.entries at).connection in
          let d = (try_terminal c first).0 in
          let (low, fits) = claimed-open c first won in
          let (a, b, g) = try_terminal-tokens c first in
          let (w, x, y, cycle) = try_terminal-claims c first low fits in
          let again =
            lookup-same sys (by_cycle k cycle_id) r handle at d e
              (validate_cycle-same c d k cycle_id a b g cycle) in
          rw (q, again)
            (terminate_at-second r at d d second
              (if first == second then already_same else already_different)
              (try_terminal-twice c first second low fits l) refl)
    ]
