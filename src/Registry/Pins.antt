-- ===== src/Registry/Pins.antt =====
-- What the pins of c/connection/ck_connection_registry.c promise: a table in which the users of each
-- entry are the pins that are out. `Side` is a kind of pins, those on the readers or on the writers.
pub mod Counted
pub mod Calm
pub mod Taken
pub mod Given
pub mod Steps
pub mod Run
use ckarta.Prelude.{
  ℕ, zero, suc, ◌+◌, ◌<◌, ◌≤◌, ◌≡◌, ◌≢◌, refl, ◌⊎◌, inl, inr, Bool, true, false, List, [], ◌∷◌,
  Option, none, some, ◌==◌, if◌then◌else◌, length, arith,
}
use ckarta.Connection.{state}
use ckarta.Connection.Word.{closed}
use ckarta.Registry.{Registry, Entry, decode_handle}
use ckarta.Registry.Operations.{Pin, same, reader_of, writer_of}

pub record Side : Type 0 where
  pub object_of : Entry → Option ℕ
  pub users : Entry → ℕ

abbrev pub readers : Side
readers = record { object_of = reader_of; users = λ e. e.reader_users }

abbrev pub writers : Side
writers = record { object_of = writer_of; users = λ e. e.output_users }

-- The number of the pins that are on an entry.
unfoldable pub count : ℕ → List Pin → ℕ
count i [] = 0
count i (p ∷ pins) = let n = count i pins in if same (some i) p.connection then n + 1 else n

abbrev pub Each : (Pin → Type 0) → List Pin → Type 0
Each P [] = Unit
Each P (p ∷ pins) = P p × Each P pins

-- The pin names an active entry of its own generation, which still has the object pinned.
pub record IsLive (s : Side) (r : Registry) (p : Pin) : Type 0 where
  pub index : ℕ
  pub generation : ℕ
  pub object : ℕ
  pub handle_is : decode_handle p.handle ≡ some (index, generation)
  pub connection_is : p.connection ≡ some index
  pub object_is : p.object ≡ some object
  pub is_active : (r.entries index).active ≡ true
  pub generation_is : (r.entries index).generation ≡ generation
  pub object_kept : s.object_of (r.entries index) ≡ some object

pub record IsSound (s : Side) (r : Registry) (pins : List Pin) : Type 0 where
  pub counted : (i : ℕ) → count i pins ≡ s.users (r.entries i)
  pub live : Each (IsLive s r) pins
  pub idle : (i : ℕ) → (r.entries i).active ≡ false → s.users (r.entries i) ≡ 0
  pub not_closed : (i : ℕ) → s.users (r.entries i) ≢ 0 → state (r.entries i).connection ≢ closed

-- Taking one pin out of those that are out.
pub data Removes (p : Pin) : List Pin → List Pin → Type 0 where
  here : {pins : List Pin} → Removes p (p ∷ pins) pins
  there : {q : Pin} {pins rest : List Pin} → Removes p pins rest → Removes p (q ∷ pins) (q ∷ rest)

pub count-length : (i : ℕ) (pins : List Pin) → count i pins ≤ length pins
unfolding count
count-length i [] = omega arith
count-length i (p ∷ pins) = ground (arith, count-length i pins)

pub count-here :
    (i : ℕ) (p : Pin) (pins : List Pin)
    → p.connection ≡ some i
    → count i (p ∷ pins) ≡ count i pins + 1
unfolding count
count-here i p pins h = ground arith

pub count-elsewhere :
    (i j : ℕ) (p : Pin) (pins : List Pin)
    → p.connection ≡ some j
    → i ≢ j
    → count i (p ∷ pins) ≡ count i pins
unfolding count
count-elsewhere i j p pins h n = ground arith

pub count_more : (i : ℕ) (p : Pin) (pins : List Pin) → count i pins ≤ count i (p ∷ pins)
unfolding count
count_more i p pins = ground arith

pub count-Removes :
    (i : ℕ) (p : Pin) {pins rest : List Pin}
    → Removes p pins rest
    → count i pins ≡ count i (p ∷ rest)
unfolding count
count-Removes i p here = refl
count-Removes i p (there {q} {pins} {rest} h) = ground (arith, count-Removes i p h)

pub Each-Removes :
    (P : Pin → Type 0) (p : Pin) {pins rest : List Pin}
    → Removes p pins rest
    → Each P pins
    → P p × Each P rest
Each-Removes P p here (x, xs) = (x, xs)
Each-Removes P p (there h) (x, xs) = let (y, ys) = Each-Removes P p h xs in (y, (x, ys))
