-- ===== src/Error.antt =====
-- The error values of c/error/ck_error.c. Category and code are numbers, as their enums are; the
-- status is an int32_t.
pub mod Checks
use ckarta.Prelude.{ℕ, Bool, not, ◌&&◌, ◌||◌, ltb, leb, ◌==◌, if◌then◌else◌}
use ckarta.Status.{Status, minus_one, ok}

pub data ℤ : Type 0 where
  pos negsuc : ℕ → ℤ

abbrev pub abi_version : ℕ
abi_version = 1

pub record Error : Type 0 where
  pub abi_version : ℕ
  pub category : ℕ
  pub code : ℕ
  pub http_status : ℤ
  pub flags : ℕ
  pub phase : ℕ
  pub request_id : ℕ

-- CK_ERROR_CATEGORY_FATAL and CK_ERROR_CODE_FATAL_RUNTIME.
abbrev pub last_category : ℕ
last_category = 10

abbrev pub last_code : ℕ
last_code = 10

unfoldable pub init : Error
init = record {
  abi_version = 1;
  category = 0;
  code = 0;
  http_status = pos 0;
  flags = 0;
  phase = 0;
  request_id = 0;
}

unfoldable pub status_valid : ℤ → Bool
status_valid (pos n) = n == 0 || leb 100 n && leb n 599
status_valid (negsuc n) = Bool.false

-- The two flags are the bits 0 and 1, so that `flags & ~CK_ERROR_FLAG_MASK` is 0 below 4.
unfoldable pub set : Error → ℕ → ℕ → ℤ → ℕ → ℕ → ℕ → Error × Status
unfolding status_valid
set e category code http_status flags phase request_id =
    if not (leb category last_category && leb code last_code)
    then (e, minus_one)
    else if not (status_valid http_status)
    then (e, minus_one)
    else if not (ltb flags 4)
    then (e, minus_one)
    else (
      record {
        abi_version = abi_version;
        category = category;
        code = code;
        http_status = http_status;
        flags = flags;
        phase = phase;
        request_id = request_id;
      },
      ok,
    )
