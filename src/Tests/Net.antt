-- ===== src/Tests/Net.antt =====
-- A listener whose port is taken, and a system with io_uring.
use ckarta.Prelude.{ℕ, ◌≡◌, false, ◌⊎◌, List, [], ◌∷◌, none, some}
use ckarta.Status.{minus_one, code, ok, value, errno}
use ckarta.Net.Socket.{Calls}
use ckarta.Net.Listener.{Listener, init, fd_of, destroy, init-Outcome}
use ckarta.Event.Probe as Probe
use ckarta.Event.Probe.{probe, Reports, probe-IsProbed}

abbrev port_taken : Calls
port_taken = record {
  socket = value 7;
  reuse_address = λ fd. value tt;
  bind = λ fd port. errno 98;
  listen = λ fd backlog. value tt;
}

abbrev closed_listener : Listener
closed_listener = record { socket_fd = none; initialized = false }

init-Outcome_example :
    let (opened, now, s) = init port_taken (0 ∷ []) closed_listener 8080 in
    let (left, gone, t) = destroy (λ fd. value tt) opened now in
    ((fd : ℕ) × (s ≡ ok)
      × (fd_of now ≡ some fd)
      × (opened ≡ fd ∷ 0 ∷ [])
      × (left ≡ 0 ∷ [])
      × (fd_of gone ≡ none)
      × (destroy (λ fd. value tt) left gone ≡ (0 ∷ [], gone, ok)))
    ⊎ ((e : ℕ) × (s ≡ code e) × (opened ≡ 0 ∷ []) × (now ≡ closed_listener))
init-Outcome_example = init-Outcome port_taken (λ fd. value tt) (0 ∷ []) closed_listener 8080

-- ACCEPT is supported, RECV is not, and SEND is not in the list.
abbrev has_ring : Probe.Calls
has_ring = record {
  setup = value (4, 32);
  calloc = value tt;
  register = value ((13, 1) ∷ (27, 0) ∷ []);
  close = value tt;
}

probe-IsProbed_example :
    let (left, r, s) = probe has_ring [] in
    (left ≡ [])
    × ((r.available ≡ false)
        ⊎ ((s ≡ minus_one)
            ⊎ ((ops : List (ℕ × ℕ)) × (s ≡ ok)
                × (r.error_number ≡ 0)
                × Reports 13 ops r.accept
                × Reports 27 ops r.recv
                × Reports 26 ops r.send)))
probe-IsProbed_example = probe-IsProbed has_ring []
