-- ===== src/Event/Probe.antt =====
-- The probe of c/event/ck_io_uring_probe.c on Linux: whether the system has io_uring, and which of its
-- operations the server would use. The answers of the system are parameters; IORING_OP_ACCEPT, RECV and
-- SEND are 13, 27 and 26, IO_URING_OP_SUPPORTED is the bit 0, and IORING_FEAT_FAST_POLL the bit 5.
use ckarta.Prelude.{
  ℕ, ◌/◌, ◌%◌, ◌^◌, ◌≡◌, refl, Bool, true, false, not, ◌⊎◌, inl, inr, List, [], ◌∷◌, ◌==◌,
  if◌then◌else◌, arith, if_split,
}
use ckarta.Status.{Status, minus_one, ok, Answer, value, errno}
use ckarta.Descriptors.{release, release_newest}

-- An operation of the probe: its code and its flags. The list has `ops_len` of them.
unfoldable pub opcode_supported : List (ℕ × ℕ) → ℕ → Bool
opcode_supported [] opcode = false
opcode_supported ((op, flags) ∷ ops) opcode =
    let rest = opcode_supported ops opcode in if op == opcode then not (flags % 2 == 0) else rest

pub record ProbeResult : Type 0 where
  pub available : Bool
  pub error_number : ℕ
  pub features : ℕ
  pub fast_poll : Bool
  pub accept : Bool
  pub recv : Bool
  pub send : Bool

abbrev pub nothing_found : ProbeResult
nothing_found = record {
  available = false;
  error_number = 0;
  features = 0;
  fast_poll = false;
  accept = false;
  recv = false;
  send = false;
}

-- What the calls answer: the set-up with the descriptor and the features, `calloc` with NULL's error or
-- none, the registration with the operations, and `close`.
pub record Calls : Type 0 where
  pub setup : Answer (ℕ × ℕ)
  pub calloc : Answer Unit
  pub register : Answer (List (ℕ × ℕ))
  pub close : Answer Unit

abbrev pub registered : Answer (List (ℕ × ℕ)) → ProbeResult → ProbeResult
registered (value ops) r = record r {
  accept = opcode_supported ops 13;
  recv = opcode_supported ops 27;
  send = opcode_supported ops 26;
}
registered (errno e) r = record r { error_number = e; available = false }

abbrev pub closed : Answer Unit → ProbeResult → ProbeResult
closed (value x) r = r
closed (errno e) r =
    if r.error_number == 0 then record r { error_number = e; available = false } else r

abbrev pub with_block :
    Answer Unit
    → Answer (List (ℕ × ℕ))
    → Answer Unit
    → List ℕ
    → ℕ
    → ProbeResult
    → List ℕ × ProbeResult × Status
with_block (value x) register close fds fd r =
    (release fd fds, closed close (registered register r), ok)
with_block (errno e) register close fds fd r =
    (release fd fds, record r { error_number = e }, minus_one)

abbrev pub with_ring : Calls → List ℕ → Answer (ℕ × ℕ) → List ℕ × ProbeResult × Status
with_ring calls fds (errno e) = (fds, record nothing_found { error_number = e }, ok)
with_ring calls fds (value (fd, features)) =
    with_block calls.calloc calls.register calls.close (fd ∷ fds) fd (record nothing_found {
      available = true;
      features = features;
      fast_poll = not (features / 2 ^ 5 % 2 == 0);
    })

-- The descriptors that are open, the result, and the answer.
unfoldable pub probe : Calls → List ℕ → List ℕ × ProbeResult × Status
unfolding opcode_supported
probe calls fds = with_ring calls fds calls.setup

-- An operation is reported only by the first entry for its code, and only if that has the flag.
pub data Reports (opcode : ℕ) : List (ℕ × ℕ) → Bool → Type 0 where
  missing : Reports opcode [] false
  found :
      {op flags : ℕ} {ops : List (ℕ × ℕ)}
      → op ≡ opcode
      → Reports opcode ((op, flags) ∷ ops) (not (flags % 2 == 0))
  passed :
      {op flags : ℕ} {ops : List (ℕ × ℕ)} {b : Bool}
      → (op ≡ opcode → ⊥)
      → Reports opcode ops b
      → Reports opcode ((op, flags) ∷ ops) b

opcode_supported-Reports :
    (ops : List (ℕ × ℕ)) (opcode : ℕ) → Reports opcode ops (opcode_supported ops opcode)
unfolding opcode_supported
opcode_supported-Reports [] opcode = missing
opcode_supported-Reports ((op, flags) ∷ ops) opcode =
    if_split (Reports opcode ((op, flags) ∷ ops)) (op == opcode) (λ h. found (ground (arith, h)))
      (λ h. passed (ground (arith, h)) (opcode_supported-Reports ops opcode))

abbrev IsProbed : List ℕ → List ℕ × ProbeResult × Status → Type 0
IsProbed fds (left, r, s) =
    (left ≡ fds)
    × ((r.available ≡ false)
        ⊎ ((s ≡ minus_one)
            ⊎ ((ops : List (ℕ × ℕ)) × (s ≡ ok)
                × (r.error_number ≡ 0)
                × Reports 13 ops r.accept
                × Reports 27 ops r.recv
                × Reports 26 ops r.send)))

closed-IsProbed :
    (register : Answer (List (ℕ × ℕ))) (close : Answer Unit) (fds : List ℕ) (fd : ℕ)
    (r : ProbeResult)
    → r.error_number ≡ 0
    → IsProbed fds (with_block (value tt) register close (fd ∷ fds) fd r)
closed-IsProbed (value ops) (value x) fds fd r h = (
  release_newest fd fds,
  inr (
      inr (
        ops,
        refl,
        h,
        opcode_supported-Reports ops 13,
        opcode_supported-Reports ops 27,
        opcode_supported-Reports ops 26,
      )),
)
closed-IsProbed (value ops) (errno e) fds fd r h = (release_newest fd fds, inl (ground (arith, h)))
closed-IsProbed (errno e) (value x) fds fd r h = (release_newest fd fds, inl refl)
closed-IsProbed (errno e) (errno f) fds fd r h = (release_newest fd fds, inl (ground arith))

-- The probe leaves the open descriptors as they were, on every way out. It reports io_uring as
-- available only with no error number and with each operation as the list of the system has it, but
-- for a probe that answers -1, for want of memory.
pub probe-IsProbed :
    (calls : Calls) (fds : List ℕ)
    → let (left, r, s) = probe calls fds in
      (left ≡ fds)
      × ((r.available ≡ false)
          ⊎ ((s ≡ minus_one)
              ⊎ ((ops : List (ℕ × ℕ)) × (s ≡ ok)
                  × (r.error_number ≡ 0)
                  × Reports 13 ops r.accept
                  × Reports 27 ops r.recv
                  × Reports 26 ops r.send)))
unfolding probe
probe-IsProbed calls fds = on_setup calls.setup calls.calloc
  where
    on_setup :
        (setup : Answer (ℕ × ℕ)) (calloc : Answer Unit)
        → IsProbed fds (with_ring (record calls { calloc = calloc }) fds setup)
    on_setup (errno e) calloc = (refl, inl refl)
    on_setup (value (fd, features)) (errno e) = (release_newest fd fds, inr (inl refl))
    on_setup (value (fd, features)) (value x) =
        closed-IsProbed calls.register calls.close fds fd
          (record nothing_found {
            available = true;
            features = features;
            fast_poll = not (features / 2 ^ 5 % 2 == 0);
          })
          refl
