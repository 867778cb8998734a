-- ===== src/Completion/Notification.antt =====
-- The notification of c/event/ck_completion_notification.c. The eventfd behind its descriptor is a
-- parameter; the constants are those of Linux.
pub mod Drain
use ckarta.Prelude.{
  ℕ, zero, suc, ◌≡◌, Bool, true, false, not, List, ◌∷◌, Option, none, some, ◌==◌, if◌then◌else◌,
  ◌⊎◌,
}
use ckarta.Status.{Status, minus_one, code, ok, Answer, value, errno, eagain}
use ckarta.Descriptors.{release}

pub record Notification : Type 0 where
  pub fd : Option ℕ
  pub initialized : Bool

-- A counter of the kernel that one thread adds one to and another one reads.
pub record EventFd : Type 1 where
  pub State : Type 0
  pub is_readable : State → Bool
  pub write_one : State → State × Answer ℕ
  pub read : State → State × Answer ℕ

-- What eventfd(2) says of a counter that does not block: a write of one makes it readable, or finds
-- it so full that it is; a read of a readable one gives 8 bytes and takes it all.
pub record IsEventFd (k : EventFd) : Type 0 where
  pub write_answers :
      (s : k.State) → ((k.write_one s).1 ≡ value 8) ⊎ ((k.write_one s).1 ≡ errno eagain)
  pub write_signals : (s : k.State) → k.is_readable (k.write_one s).0 ≡ true
  pub read_takes :
      (s : k.State)
      → k.is_readable s ≡ true
      → ((k.read s).1 ≡ value 8) × (k.is_readable (k.read s).0 ≡ false)
  pub read_again : (s : k.State) → k.is_readable s ≡ false → k.read s ≡ (s, errno eagain)

abbrev pub eio : ℕ
eio = 5

-- The descriptor is added to those that are open.
unfoldable pub init : Answer ℕ → List ℕ → Notification → List ℕ × Notification × Status
init (value fd) fds n = (fd ∷ fds, record { fd = some fd; initialized = true }, ok)
init (errno e) fds n = (fds, record n { fd = none }, code e)

abbrev pub signalled : Answer ℕ → Status
signalled (value bytes) = if bytes == 8 then ok else code eio
signalled (errno e) = if e == eagain then ok else code e

unfoldable pub signal : (k : EventFd) → Notification → k.State → k.State × Status
signal k n s =
    if not n.initialized then (s, minus_one) else ((k.write_one s).0, signalled (k.write_one s).1)

abbrev pub fd_of : Notification → Option ℕ
fd_of n = if not n.initialized then none else n.fd

-- What the loop does after a read; `rest` is the loop from there on.
abbrev pub after_read : {A : Type 0} → Option (A × Status) → A × Answer ℕ → Option (A × Status)
after_read rest (s, value bytes) = if bytes == 8 then rest else some (s, code eio)
after_read rest (s, errno e) = some (s, if e == eagain then ok else code e)

unfoldable pub drain_loop : (k : EventFd) → ℕ → k.State → Option (k.State × Status)
drain_loop k zero s = none
drain_loop k (suc fuel) s = after_read (drain_loop k fuel (k.read s).0) (k.read s)

-- `none` is a loop that is still running when the fuel is gone.
unfoldable pub drain : (k : EventFd) → ℕ → Notification → k.State → Option (k.State × Status)
unfolding drain_loop
drain k fuel n s = if not n.initialized then some (s, minus_one) else drain_loop k fuel s

unfoldable pub destroy : List ℕ → Notification → List ℕ × Notification
destroy fds n = if not n.initialized then (fds, n) else (
  elim n.fd [ none ↦ fds | some fd ↦ release fd fds ],
  record { fd = none; initialized = false },
)
