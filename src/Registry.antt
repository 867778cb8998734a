-- ===== src/Registry.antt =====
-- The table of connections of c/connection/ck_connection_registry.c: 256 entries behind one lock,
-- named by handles of a slot and a generation, and pins that keep the objects of an entry alive. The
-- entries are a function from their indices; whether the lock is got, and what unlocking answers,
-- is a parameter.
pub mod Handles
pub mod Entries
pub mod Operations
pub mod Table
pub mod Terminal
pub mod Pins
use ckarta.Prelude.{
  ℕ, zero, suc, ◌+◌, ◌-◌, ◌*◌, ◌/◌, ◌%◌, ◌^◌, Bool, true, false, not, ◌&&◌, ◌||◌, List, Option,
  none, some, ltb, ◌==◌, if◌then◌else◌,
}
use ckarta.Connection.{
  Connection, state, start_async_cycle, try_terminal, close, CloseResult, validate, validate_cycle,
}
use ckarta.Connection.Init as ConnectionInit
use ckarta.Connection.Objects.{Objects, is_some}
use ckarta.Connection.Objects as Object
use ckarta.Connection.Word.{closed}
use ckarta.Status.{Status, minus_one, minus_two, minus_three, code, ok}

abbrev pub capacity : ℕ
capacity = 256

-- Of Linux.
abbrev pub enospc : ℕ
enospc = 28

pub record Entry : Type 0 where
  pub connection : Connection
  pub generation : ℕ
  pub reader_users : ℕ
  pub output_users : ℕ
  pub active : Bool

pub record Registry : Type 0 where
  pub entries : ℕ → Entry
  pub initialized : Bool

pub record System : Type 0 where
  pub locked : Bool
  pub unlock : Status

-- The tokens with which a caller shows that it means this connection.
pub record Claim : Type 0 where
  pub request_id : ℕ
  pub owner_token : ℕ
  pub lifetime_token : ℕ

abbrev pub is_ok : Status → Bool
is_ok (code n) = n == 0
is_ok minus_one = false
is_ok minus_two = false
is_ok minus_three = false

-- The index is below 2 ^ 32, so that `|` is a sum.
unfoldable pub make_handle : ℕ → ℕ → ℕ
make_handle index generation = generation * 2 ^ 32 + (index + 1)

unfoldable pub decode_handle : ℕ → Option (ℕ × ℕ)
decode_handle handle =
    let slot = handle % 2 ^ 32 in
    let generation = handle / 2 ^ 32 in
    if slot == 0 || ltb capacity slot
    then none
    else if generation == 0
    then none
    else some (slot - 1, generation)

unfoldable pub find_at : (ℕ → Entry) → Option (ℕ × ℕ) → Option ℕ
find_at entries none = none
find_at entries (some (index, generation)) =
    if not (entries index).active || not ((entries index).generation == generation)
    then none
    else some index

unfoldable pub find : Registry → ℕ → Option ℕ
unfolding find_at
find r handle = find_at r.entries (decode_handle handle)

unfoldable pub put : (ℕ → Entry) → ℕ → Entry → ℕ → Entry
put entries at e i = if i == at then e else entries i

unfoldable pub put_entry : Registry → ℕ → Entry → Registry
unfolding put
put_entry r at e = record r { entries = put r.entries at e }

-- The connection of an entry.
unfoldable pub put_connection : Registry → ℕ → Connection → Registry
unfolding put_entry
put_connection r at c = put_entry r at (record (r.entries at) { connection = c })

-- What the start that the operations on a handle share comes to: an error code, or the entry found.
pub data Lookup : Type 0 where
  refused : Status → Lookup
  found : ℕ → Lookup

unfoldable pub checked : (Connection → Status) → Registry → Option ℕ → Lookup
checked check r none = refused minus_two
checked check r (some at) =
    if not (is_ok (check (r.entries at).connection)) then refused minus_three else found at

-- The lock, the search for the entry and the check of the tokens.
unfoldable pub lookup : System → (Connection → Status) → Registry → ℕ → Lookup
unfolding find checked
lookup sys check r handle =
    if not r.initialized || not sys.locked
    then refused minus_one
    else checked check r (find r handle)

abbrev pub by_claim : Claim → Connection → Status
by_claim k c = validate c k.request_id k.owner_token k.lifetime_token

-- `init` where its lock is made; all entries are zeros.
unfoldable pub init : Entry → Registry
init zeros = record { entries = λ i. zeros; initialized = true }

-- The first entry that is not active, among `n` of them from an index on.
unfoldable pub first_free : (ℕ → Entry) → ℕ → ℕ → Option ℕ
first_free entries index zero = none
first_free entries index (suc n) =
    let later = first_free entries (index + 1) n in
    if (entries index).active then later else some index

unfoldable pub next_generation : ℕ → ℕ
next_generation g = let n = (g + 1) % 2 ^ 32 in if n == 0 then 1 else n

-- What `register` leaves: the table, the heap, the result and the handle.
pub record Registered : Type 0 where
  pub registry : Registry
  pub heap : List ℕ
  pub status : Status
  pub handle : Option ℕ

-- The part on the free entry, with what the initialisation of its connection gives.
unfoldable pub register_at : System → Registry → ℕ → ConnectionInit.Made → Registered
unfolding put_entry next_generation make_handle
register_at sys r index made =
    let generation = next_generation (r.entries index).generation in
    let e : Entry = record {
      connection = made.connection;
      generation = generation;
      reader_users = 0;
      output_users = 0;
      active = false;
    } in
    if not (is_ok made.status)
    then record {
      registry = put_entry r index e;
      heap = made.heap;
      status = minus_one;
      handle = none;
    }
    else record {
      registry = put_entry r index (record e { active = true });
      heap = made.heap;
      status = if is_ok sys.unlock then ok else minus_one;
      handle = some (make_handle index generation);
    }

-- The part behind the search for a free entry.
unfoldable pub register_in :
    System → Registry → ConnectionInit.Ids → ConnectionInit.Malloc → List ℕ → Option ℕ → Registered
unfolding register_at
register_in sys r ids m heap none = record {
  registry = r;
  heap = heap;
  status = code enospc;
  handle = none;
}
register_in sys r ids m heap (some index) =
    register_at sys r index (ConnectionInit.init (r.entries index).connection ids m heap)

unfoldable pub register :
    System → Registry → ConnectionInit.Ids → ConnectionInit.Malloc → List ℕ → Registered
unfolding first_free register_in
register sys r ids m heap =
    if not r.initialized || ids.connection_id == 0 || ids.request_id == 0
    then record { registry = r; heap = heap; status = minus_one; handle = none }
    else if not sys.locked
    then record { registry = r; heap = heap; status = minus_one; handle = none }
    else register_in sys r ids m heap (first_free r.entries 0 capacity)
