-- ===== src/Net/Listener.antt =====
-- The listener of c/net/ck_tcp_listener.c.
use ckarta.Prelude.{
  ℕ, ◌≡◌, refl, ap, ◌∙◌, Bool, true, false, not, ◌⊎◌, inl, inr, List, ◌∷◌, Option, none, some,
  if◌then◌else◌,
}
use ckarta.Status.{Status, code, ok, Answer, value, errno, einval}
use ckarta.Descriptors.{release, release_newest}
use ckarta.Net.Socket as Socket
use ckarta.Net.Socket.{Calls, Opens, create-Opens}

pub record Listener : Type 0 where
  pub socket_fd : Option ℕ
  pub initialized : Bool

abbrev made : Listener → List ℕ × Answer ℕ → List ℕ × Listener × Status
made l (fds, value fd) = (fds, record { socket_fd = some fd; initialized = true }, ok)
made l (fds, errno e) = (fds, l, code e)

unfoldable pub init : Calls → List ℕ → Listener → ℕ → List ℕ × Listener × Status
init calls fds l port = made l (Socket.create_loopback_listener calls fds port)

unfoldable pub port : (ℕ → Answer ℕ) → Listener → Answer ℕ
port getsockname l =
    if not l.initialized then errno einval else Socket.get_port getsockname l.socket_fd

unfoldable pub fd_of : Listener → Option ℕ
fd_of l = if not l.initialized then none else l.socket_fd

unfoldable pub accept : (ℕ → Answer ℕ) → List ℕ → Listener → List ℕ × Answer ℕ
accept accept_fd fds l =
    if not l.initialized
    then (fds, errno einval)
    else Socket.accept_nonblocking accept_fd fds l.socket_fd

unfoldable pub destroy : (ℕ → Answer Unit) → List ℕ → Listener → List ℕ × Listener × Status
destroy close_fd fds l =
    let (left, s) = Socket.close close_fd fds l.socket_fd in
    if not l.initialized
    then (fds, l, ok)
    else (left, record { socket_fd = none; initialized = false }, s)

-- What the listener is after a call of `init`, and what `destroy` makes of it.
abbrev Outcome : (ℕ → Answer Unit) → List ℕ → Listener → List ℕ × Listener × Status → Type 0
Outcome close_fd fds before (opened, l, s) =
    let (left, gone, t) = destroy close_fd opened l in
    ((fd : ℕ) × (s ≡ ok)
      × (fd_of l ≡ some fd)
      × (opened ≡ fd ∷ fds)
      × (left ≡ fds)
      × (fd_of gone ≡ none)
      × (destroy close_fd left gone ≡ (fds, gone, ok)))
    ⊎ ((e : ℕ) × (s ≡ code e) × (opened ≡ fds) × (l ≡ before))

made-Outcome :
    (close_fd : ℕ → Answer Unit) (fds : List ℕ) (before : Listener) (r : List ℕ × Answer ℕ)
    → Opens fds r
    → Outcome close_fd fds before (made before r)
unfolding destroy Socket.close fd_of
made-Outcome close_fd fds before (opened, value fd) h =
    let closed : release fd opened ≡ fds = ap (release fd) h ∙ release_newest fd fds in
    let gone : Listener = record { socket_fd = none; initialized = false } in
    inl (fd, refl, refl, h, closed, refl, ap (λ x. (x, gone, ok)) closed)
made-Outcome close_fd fds before (opened, errno e) h = inr (e, refl, h, refl)

-- A listener that `init` makes has one descriptor more than before; `destroy` closes it, whatever the
-- system answers, and a second `destroy` does nothing. Where `init` fails, the listener and the open
-- descriptors are as before.
pub init-Outcome :
    (calls : Calls) (close_fd : ℕ → Answer Unit) (fds : List ℕ) (l : Listener) (port : ℕ)
    → let (opened, now, s) = init calls fds l port in
      let (left, gone, t) = destroy close_fd opened now in
      ((fd : ℕ) × (s ≡ ok)
        × (fd_of now ≡ some fd)
        × (opened ≡ fd ∷ fds)
        × (left ≡ fds)
        × (fd_of gone ≡ none)
        × (destroy close_fd left gone ≡ (fds, gone, ok)))
      ⊎ ((e : ℕ) × (s ≡ code e) × (opened ≡ fds) × (now ≡ l))
unfolding init
init-Outcome calls close_fd fds l port =
    made-Outcome close_fd fds l (Socket.create_loopback_listener calls fds port)
      (create-Opens calls fds port)
