-- ===== src/Net/Socket.antt =====
-- The wrappers of c/platform/ck_socket.c over the calls of the system, whose answers are parameters. A
-- descriptor, a port or a length is a value; a negative result is an `errno`.
use ckarta.Prelude.{
  ℕ, ◌≡◌, refl, Bool, not, ◌&&◌, List, ◌∷◌, Option, none, some, ◌==◌, if◌then◌else◌,
}
use ckarta.Status.{Status, code, Answer, value, errno, answered, einval}
use ckarta.Descriptors.{release, release_newest}

-- What the system is asked: about a descriptor, and the port for `bind`, the backlog for `listen`.
pub record Calls : Type 0 where
  pub socket : Answer ℕ
  pub reuse_address : ℕ → Answer Unit
  pub bind : ℕ → ℕ → Answer Unit
  pub listen : ℕ → ℕ → Answer Unit

-- A descriptor goes on to the next call, and is closed if the call fails.
abbrev pub or_close : List ℕ → ℕ → Answer Unit → List ℕ × Answer ℕ → List ℕ × Answer ℕ
or_close fds fd (value x) next = next
or_close fds fd (errno e) next = (release fd fds, errno e)

abbrev set_up : Calls → List ℕ → ℕ → ℕ → List ℕ × Answer ℕ
set_up calls fds port fd =
    or_close fds fd (calls.reuse_address fd)
      (or_close fds fd (calls.bind fd port) (or_close fds fd (calls.listen fd 128) (fds, value fd)))

abbrev with_socket : Calls → List ℕ → ℕ → Answer ℕ → List ℕ × Answer ℕ
with_socket calls fds port (value fd) = set_up calls (fd ∷ fds) port fd
with_socket calls fds port (errno e) = (fds, errno e)

unfoldable pub create_loopback_listener : Calls → List ℕ → ℕ → List ℕ × Answer ℕ
create_loopback_listener calls fds port = with_socket calls fds port calls.socket

-- `none` is a descriptor below 0. The port of the address is in network order.
unfoldable pub get_port : (ℕ → Answer ℕ) → Option ℕ → Answer ℕ
get_port getsockname none = errno einval
get_port getsockname (some fd) = getsockname fd

-- The new descriptor is open if there is one.
abbrev pub accepted : List ℕ → Answer ℕ → List ℕ × Answer ℕ
accepted fds (value fd) = (fd ∷ fds, value fd)
accepted fds (errno e) = (fds, errno e)

unfoldable pub accept_nonblocking : (ℕ → Answer ℕ) → List ℕ → Option ℕ → List ℕ × Answer ℕ
accept_nonblocking accept fds none = (fds, errno einval)
accept_nonblocking accept fds (some fd) = accepted fds (accept fd)

-- `recv` and `send`, on a buffer that is there or not and a length; the answer tells how many bytes.
unfoldable pub transfer_nonblocking : (ℕ → ℕ → Answer ℕ) → Option ℕ → Bool → ℕ → Answer ℕ
transfer_nonblocking transfer none buffer length = errno einval
transfer_nonblocking transfer (some fd) buffer length =
    if not buffer && not (length == 0) then errno einval else transfer fd length

unfoldable pub close : (ℕ → Answer Unit) → List ℕ → Option ℕ → List ℕ × Status
close close_fd fds none = (fds, code einval)
close close_fd fds (some fd) = (release fd fds, answered (close_fd fd))

-- A new socket is left open only when it is given to the caller.
abbrev pub Opens : List ℕ → List ℕ × Answer ℕ → Type 0
Opens fds (opened, value fd) = opened ≡ fd ∷ fds
Opens fds (opened, errno e) = opened ≡ fds

or_close-Opens :
    (fds : List ℕ) (fd : ℕ) (a : Answer Unit) (next : List ℕ × Answer ℕ)
    → Opens fds next
    → Opens fds (or_close (fd ∷ fds) fd a next)
or_close-Opens fds fd (value x) next h = h
or_close-Opens fds fd (errno e) next h = release_newest fd fds

-- Creating the listener's socket leaves one descriptor more if it answers with one, and the same ones
-- if it fails, at whichever of its four calls.
pub create-Opens :
    (calls : Calls) (fds : List ℕ) (port : ℕ) → Opens fds (create_loopback_listener calls fds port)
unfolding create_loopback_listener
create-Opens calls fds port = with_answer calls.socket
  where
    with_answer : (a : Answer ℕ) → Opens fds (with_socket calls fds port a)
    with_answer (errno e) = refl
    with_answer (value fd) =
        or_close-Opens fds fd (calls.reuse_address fd)
          (or_close (fd ∷ fds) fd (calls.bind fd port)
            (or_close (fd ∷ fds) fd (calls.listen fd 128) (fd ∷ fds, value fd)))
          (or_close-Opens fds fd (calls.bind fd port)
            (or_close (fd ∷ fds) fd (calls.listen fd 128) (fd ∷ fds, value fd))
            (or_close-Opens fds fd (calls.listen fd 128) (fd ∷ fds, value fd) refl))
