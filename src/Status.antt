-- ===== src/Status.antt =====
-- The `int` results of the C functions: the negative ones by name, the others by their number.
use ckarta.Prelude.{ℕ}

-- A negative result by its name, -1, -2 or -3.
pub data Status : Type 0 where
  minus_one minus_two minus_three : Status
  code : ℕ → Status

abbrev pub ok : Status
ok = code 0

-- An answer of the system: a value, or an `errno`.
pub data Answer (A : Type 0) : Type 0 where
  value : A → Answer A
  errno : ℕ → Answer A

abbrev pub answered : Answer Unit → Status
answered (value x) = ok
answered (errno e) = code e

abbrev pub eagain : ℕ
eagain = 11

abbrev pub einval : ℕ
einval = 22
