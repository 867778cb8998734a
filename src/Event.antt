-- ===== src/Event.antt =====
-- The event loop of c/event/ck_event_loop.c: the events of the program as masks of epoll, and what the
-- calls ask of it. The answers of epoll are parameters; the constants are those of Linux.
pub mod Probe
use ckarta.Prelude.{
  ℕ, ◌+◌, ◌*◌, ◌/◌, ◌%◌, ◌^◌, ◌<◌, ◌≤◌, ◌≡◌, refl, Bool, true, false, not, ◌&&◌, ◌||◌, List, [],
  ◌∷◌, Option, none, some, ltb, ◌==◌, if◌then◌else◌, arith, Bool-cases, inl, inr, ◌⊎◌,
}
use ckarta.Status.{Status, code, ok, Answer, value, errno, answered, einval}

abbrev bit : ℕ → ℕ → ℕ
bit v k = v / 2 ^ k % 2

-- READ, WRITE, RDHUP and ERROR are the bits 0 to 3. EPOLLIN, EPOLLOUT, EPOLLERR, EPOLLHUP and
-- EPOLLRDHUP are the bits 0, 2, 3, 4 and 13; masks without a bit in common add up.
abbrev mask_of : ℕ → ℕ
mask_of events =
    bit events 0 * 2 ^ 0
    + bit events 1 * 2 ^ 2
    + bit events 2 * 2 ^ 13
    + bit events 3 * (2 ^ 3 + 2 ^ 4)

unfoldable pub to_epoll : ℕ → Option ℕ
to_epoll events = if events == 0 || not (events / 2 ^ 4 == 0) then none else some (mask_of events)

unfoldable pub from_epoll : ℕ → ℕ
from_epoll mask =
    bit mask 0 * 2 ^ 0
    + bit mask 2 * 2 ^ 1
    + bit mask 13 * 2 ^ 2
    + (if bit mask 3 == 0 && bit mask 4 == 0 then 0 else 2 ^ 3)

pub record EventLoop : Type 0 where
  pub epoll_fd : Option ℕ
  pub initialized : Bool

init : Answer ℕ → EventLoop → EventLoop × Status
init (value fd) loop = (record { epoll_fd = some fd; initialized = true }, ok)
init (errno e) loop = (record { epoll_fd = none; initialized = false }, code e)

-- What `epoll_ctl` is asked.
pub data Control : Type 0 where
  adds modifies : ℕ → ℕ → ℕ → Control
  deletes : ℕ → Control

-- The part that `add` and `modify` share; a descriptor below 0 is `none`.
pub control :
    (Control → Answer Unit) → (ℕ → ℕ → ℕ → Control) → EventLoop → Option ℕ → ℕ → ℕ → Status
unfolding to_epoll
control ctl op loop none cookie events = code einval
control ctl op loop (some fd) cookie events =
    if not loop.initialized || cookie == 0 then code einval else elim (to_epoll events) [
      | none ↦ code einval
      | some mask ↦ answered (ctl (op fd cookie mask))
    ]

add : (Control → Answer Unit) → EventLoop → Option ℕ → ℕ → ℕ → Status
unfolding control
add ctl loop fd cookie events = control ctl adds loop fd cookie events

modify : (Control → Answer Unit) → EventLoop → Option ℕ → ℕ → ℕ → Status
unfolding control
modify ctl loop fd cookie events = control ctl modifies loop fd cookie events

remove : (Control → Answer Unit) → EventLoop → Option ℕ → Status
remove ctl loop none = code einval
remove ctl loop (some fd) =
    if not loop.initialized then code einval else answered (ctl (deletes fd))

pub record Notification : Type 0 where
  pub cookie : ℕ
  pub events : ℕ

-- A timeout below -1 is none of the others.
pub data Timeout : Type 0 where
  invalid forever : Timeout
  milliseconds : ℕ → Timeout

abbrev is_invalid : Timeout → Bool
is_invalid invalid = true
is_invalid forever = false
is_invalid (milliseconds n) = false

-- A pair of a mask and a cookie is an event of epoll.
pub translate : List (ℕ × ℕ) → List Notification
unfolding from_epoll
translate [] = []
translate ((mask, cookie) ∷ events) =
    record { cookie = cookie; events = from_epoll mask } ∷ translate events

translated : Answer (List (ℕ × ℕ)) → Answer (List Notification)
unfolding translate
translated (value events) = value (translate events)
translated (errno e) = errno e

-- `epoll` gets the number of events that it may give.
pub wait :
    (ℕ → Timeout → Answer (List (ℕ × ℕ))) → EventLoop → ℕ → Timeout → Answer (List Notification)
unfolding translated
wait epoll loop capacity timeout =
    if not loop.initialized || capacity == 0 || is_invalid timeout
    then errno einval
    else translated (epoll (if ltb capacity 64 then capacity else 64) timeout)

destroy : (ℕ → Answer Unit) → EventLoop → EventLoop × Status
destroy close_fd loop = if not loop.initialized then (loop, ok) else (
  record { epoll_fd = none; initialized = false },
  elim loop.epoll_fd [ none ↦ code 9 | some fd ↦ answered (close_fd fd) ],
)

from_epoll-mask_of : (events : ℕ) → events < 2 ^ 4 → from_epoll (mask_of events) ≡ events
unfolding from_epoll
from_epoll-mask_of events h = ground arith

-- `ck_event_to_epoll` refuses no events at all and bits that are no events of the program, and it
-- accepts all else; what `ck_epoll_to_event` makes of the mask that it gives is the events that were
-- asked for.
pub from_epoll-to_epoll :
    (events : ℕ)
    → ((to_epoll events ≡ none) × ((events ≡ 0) ⊎ (2 ^ 4 ≤ events)))
      ⊎ ((mask : ℕ) × (to_epoll events ≡ some mask) × (from_epoll mask ≡ events) × (events < 2 ^ 4))
unfolding to_epoll
from_epoll-to_epoll events = elim (Bool-cases (events == 0 || not (events / 2 ^ 4 == 0))) [
  | inl e ↦ inl (rw e refl, ground arith)
  | inr e ↦
      let small : events < 2 ^ 4 = ground arith in
      inr (mask_of events, rw e refl, from_epoll-mask_of events small, small)
]
