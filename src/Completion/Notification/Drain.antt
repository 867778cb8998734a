-- ===== src/Completion/Notification/Drain.antt =====
-- What the two ends of the notification see of each other.
use ckarta.Prelude.{ℕ, suc, ◌≡◌, refl, true, false, some, Bool-cases, inl, inr}
use ckarta.Status.{ok}
use ckarta.Completion.Notification.{Notification, EventFd, IsEventFd, signal, drain_loop, drain}

-- A signal on a counter that keeps its word succeeds and leaves it readable.
pub signal-readable :
    (k : EventFd) (n : Notification) (s : k.State)
    → IsEventFd k
    → n.initialized ≡ true
    → ((signal k n s).1 ≡ ok) × (k.is_readable (signal k n s).0 ≡ true)
unfolding signal
signal-readable k n s law h = elim (law.write_answers s) [
  | inl e ↦ rw (h, e) (refl, law.write_signals s)
  | inr e ↦ rw (h, e) (refl, law.write_signals s)
]

drain_loop-empty :
    (k : EventFd) (fuel : ℕ) (s : k.State)
    → IsEventFd k
    → k.is_readable s ≡ false
    → drain_loop k (suc fuel) s ≡ some (s, ok)
unfolding drain_loop
drain_loop-empty k fuel s law h = rw (law.read_again s h) refl

-- Draining ends after at most two reads with 0, and it leaves the counter unreadable.
pub drain-ends :
    (k : EventFd) (n : Notification) (fuel : ℕ) (s : k.State)
    → IsEventFd k
    → n.initialized ≡ true
    → (t : k.State) × (drain k (suc (suc fuel)) n s ≡ some (t, ok)) × (k.is_readable t ≡ false)
unfolding drain drain_loop
drain-ends k n fuel s law h = elim (Bool-cases (k.is_readable s)) [
  | inl e ↦
      let (bytes, empty) = law.read_takes s e in
      ((k.read s).0, rw (h, bytes) (drain_loop-empty k fuel (k.read s).0 law empty), empty)
  | inr e ↦ (s, rw (h, law.read_again s e) refl, e)
]
