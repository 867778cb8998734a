-- ===== src/Registry/Handles.antt =====
-- The handles of c/connection/ck_connection_registry.c: a slot in the low 32 bits, a generation above.
use ckarta.Prelude.{ℕ, ◌+◌, ◌/◌, ◌%◌, ◌^◌, ◌<◌, ◌≡◌, ◌≢◌, some, arith}
use ckarta.Registry.{capacity, make_handle, decode_handle}

slot_lem : (i g : ℕ) → i < capacity → make_handle i g % 2 ^ 32 ≡ i + 1
unfolding make_handle
slot_lem i g h = omega arith

generation_lem : (i g : ℕ) → i < capacity → make_handle i g / 2 ^ 32 ≡ g
unfolding make_handle
generation_lem i g h = omega arith

pub decode_handle-make_handle :
    (i g : ℕ) → i < capacity → g ≢ 0 → decode_handle (make_handle i g) ≡ some (i, g)
unfolding decode_handle
decode_handle-make_handle i g h n = rw (slot_lem i g h, generation_lem i g h) ground arith

pub make_handle-decode_handle :
    (handle i g : ℕ)
    → decode_handle handle ≡ some (i, g)
    → (make_handle i g ≡ handle) × (i < capacity) × (g ≢ 0)
unfolding make_handle decode_handle
make_handle-decode_handle handle i g e = ground arith
