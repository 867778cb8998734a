-- ===== src/Connection/Word.antt =====
-- The lifecycle word of a connection: the low 8 bits are the state, the next 8 the terminal event,
-- with 0xff for none, and the upper 48 the id of the asynchronous cycle.
use ckarta.Prelude.{
  ℕ, ◌+◌, ◌*◌, ◌/◌, ◌%◌, ◌^◌, ◌-◌, ◌<◌, ◌≡◌, Bool, not, ◌&&◌, Option, none, some, leb, ◌==◌,
  if◌then◌else◌, arith,
}

abbrev pub open_state : ℕ
open_state = 0

abbrev pub async_wait : ℕ
async_wait = 1

abbrev pub closing : ℕ
closing = 2

abbrev pub closed : ℕ
closed = 3

abbrev pub last_event : ℕ
last_event = 4

abbrev pub cycle_mask : ℕ
cycle_mask = 2 ^ 48 - 1

-- A negative event is `none`.
abbrev pub event_bits : Option ℕ → ℕ
event_bits none = 0xff
event_bits (some event) = event % 2 ^ 32

-- The three fields do not overlap, so that their `|` is a sum; `& (2^k - 1)` is `% 2 ^ k`.
unfoldable pub pack : ℕ → Option ℕ → ℕ → ℕ
pack state event cycle_id =
    cycle_id % 2 ^ 48 * 2 ^ 16 + event_bits event % 2 ^ 8 * 2 ^ 8 + state % 2 ^ 8

unfoldable pub unpack_state : ℕ → ℕ
unpack_state lifecycle = lifecycle % 2 ^ 8

unfoldable pub unpack_event : ℕ → Option ℕ
unpack_event lifecycle =
    let event = lifecycle / 2 ^ 8 % 2 ^ 8 in if event == 0xff then none else some event

unfoldable pub unpack_cycle : ℕ → ℕ
unpack_cycle lifecycle = lifecycle / 2 ^ 16 % 2 ^ 48

-- COMPLETE, CLIENT_DISCONNECT, TIMEOUT, ERROR and SHUTDOWN are 0 to 4.
abbrev pub valid_event : ℕ → Bool
valid_event event = leb event last_event

abbrev pub valid_cycle_id : ℕ → Bool
valid_cycle_id cycle_id = not (cycle_id == 0) && leb cycle_id cycle_mask

pub unpack_cycle-lt : (w : ℕ) → unpack_cycle w < 2 ^ 48
unfolding unpack_cycle
unpack_cycle-lt w = omega arith

pub unpack_state-pack :
    (state : ℕ) (event : Option ℕ) (cycle_id : ℕ)
    → state < 2 ^ 8
    → unpack_state (pack state event cycle_id) ≡ state
unfolding unpack_state pack
unpack_state-pack state event cycle_id h = omega arith

pub unpack_cycle-pack :
    (state : ℕ) (event : Option ℕ) (cycle_id : ℕ)
    → cycle_id < 2 ^ 48
    → unpack_cycle (pack state event cycle_id) ≡ cycle_id
unfolding unpack_cycle pack
unpack_cycle-pack state event cycle_id h = omega arith

pub unpack_event-pack :
    (state : ℕ) (event : ℕ) (cycle_id : ℕ)
    → event < 0xff
    → unpack_event (pack state (some event) cycle_id) ≡ some event
unfolding unpack_event pack
unpack_event-pack state event cycle_id h = ground arith

pub unpack_event-pack-none : (state cycle_id : ℕ) → unpack_event (pack state none cycle_id) ≡ none
unfolding unpack_event pack
unpack_event-pack-none state cycle_id = ground arith

-- A word below 2 ^ 64 is the pack of its fields.
pub pack-unpack : (w : ℕ) → w < 2 ^ 64 → pack (unpack_state w) (unpack_event w) (unpack_cycle w) ≡ w
unfolding pack unpack_state unpack_event unpack_cycle
pack-unpack w h = ground arith
