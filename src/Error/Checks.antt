-- ===== src/Error/Checks.antt =====
-- Which error values `ck_error_set` makes.
use ckarta.Prelude.{ℕ, ◌≡◌, ◌<◌, ◌≤◌, ◌⊎◌, zero, suc, refl, true, arith}
use ckarta.Status.{minus_one, ok}
use ckarta.Error.{
  Error, ℤ, pos, negsuc, abi_version, init, set, last_category, last_code, status_valid,
}

-- A status of HTTP, or 0 for none.
pub data IsHttpStatus : ℤ → Type 0 where
  no_status : IsHttpStatus (pos 0)
  some_status : (n : ℕ) → 100 ≤ n → n ≤ 599 → IsHttpStatus (pos n)

pub record IsValid (e : Error) : Type 0 where
  pub abi : e.abi_version ≡ abi_version
  pub category_known : e.category ≤ last_category
  pub code_known : e.code ≤ last_code
  pub status_known : IsHttpStatus e.http_status
  pub flags_known : e.flags < 4

status_valid-IsHttpStatus : (z : ℤ) → status_valid z ≡ true → IsHttpStatus z
unfolding status_valid
status_valid-IsHttpStatus (pos zero) h = no_status
status_valid-IsHttpStatus (pos (suc n)) h = some_status (suc n) (ground arith) (ground arith)
status_valid-IsHttpStatus (negsuc n) h = ground arith

-- The value that `ck_error_set` leaves is valid, or it answers -1 and leaves the old one; the value
-- of `ck_error_init` is valid. So an error that is only changed by the two is always valid.
pub set-IsValid :
    (e : Error) (category code : ℕ) (http_status : ℤ) (flags phase request_id : ℕ)
    → let (d, s) = set e category code http_status flags phase request_id in
      IsValid init × ((s ≡ ok) × IsValid d ⊎ ((s ≡ minus_one) × (d ≡ e)))
unfolding set init
set-IsValid e category code http_status flags phase request_id = (
  record {
    abi = refl;
    category_known = omega arith;
    code_known = omega arith;
    status_known = no_status;
    flags_known = omega arith;
  },
  ground (arith, status_valid-IsHttpStatus http_status),
)
