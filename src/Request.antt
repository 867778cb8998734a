-- ===== src/Request.antt =====
-- The request object of c/jni/ck_request.c: its descriptor, the metadata block for the Java side
-- and its atomic state. An operation on the state is one atomic attempt on the value that it finds;
-- the attempts of several threads are in `Race`. A pointer to bytes is the bytes, `none` if NULL.
pub mod Metadata
pub mod Race
use ckarta.Prelude.{
  ℕ, ◌+◌, ◌-◌, ◌/◌, ◌%◌, ◌^◌, Bool, true, false, not, ◌&&◌, ◌||◌, List, [], ◌∷◌, ◌++◌, Bytes,
  Option, none, some, ltb, leb, ◌==◌, if◌then◌else◌, length,
}
use ckarta.Status.{Status, minus_one, code, ok}
use ckarta.Error.{Error}
use ckarta.Http.Parser as Parser

abbrev pub jni_abi_version : ℕ
jni_abi_version = 2

abbrev pub metadata_storage_bytes : ℕ
metadata_storage_bytes = 8320

abbrev pub descriptor_bytes : ℕ
descriptor_bytes = 80

abbrev pub int32_max : ℕ
int32_max = 2 ^ 31 - 1

abbrev pub int64_max : ℕ
int64_max = 2 ^ 63 - 1

-- The states.
abbrev pub pending : ℕ
pending = 0

abbrev pub running : ℕ
running = 1

abbrev pub cancelling : ℕ
cancelling = 2

abbrev pub failing : ℕ
failing = 3

abbrev pub completed : ℕ
completed = 4

abbrev pub failed : ℕ
failed = 5

pub record Descriptor : Type 0 where
  pub abi_version : ℕ
  pub struct_size : ℕ
  pub feature_flags : ℕ
  pub ownership_flags : ℕ
  pub owner_token : ℕ
  pub lifetime_token : ℕ
  pub request_id : ℕ
  pub metadata : Option Bytes
  pub metadata_length : ℕ
  pub body : Option Bytes
  pub body_length : ℕ

-- `metadata_storage` is its used prefix.
pub record Request : Type 0 where
  pub descriptor : Descriptor
  pub state : ℕ
  pub error : Error
  pub metadata_storage : Bytes

abbrev pub is_null : Option Bytes → Bool
is_null none = true
is_null (some bytes) = false

-- CK_REQUEST_FEATURE_METADATA_BUFFER is bit 1.
abbrev has_metadata_flag : Descriptor → Bool
has_metadata_flag d = d.feature_flags / 2 % 2 == 1

unfoldable pub descriptor_valid : Descriptor → Bool
descriptor_valid d =
    d.abi_version == jni_abi_version
    && leb descriptor_bytes d.struct_size
    && not (
        is_null d.metadata && not (d.metadata_length == 0)
        || ltb int32_max d.metadata_length
        || has_metadata_flag d && d.metadata_length == 0
        || not (has_metadata_flag d) && not (d.metadata_length == 0)
        || is_null d.body && not (d.body_length == 0)
        || ltb int32_max d.body_length)
    && not (
        ltb int64_max d.owner_token
        || ltb int64_max d.lifetime_token
        || ltb int64_max d.request_id
        || d.request_id == 0)

unfoldable pub init : Request → Descriptor → Request × Status
unfolding descriptor_valid
init r d =
    if not (descriptor_valid d)
    then (r, minus_one)
    else (record r { descriptor = d; error = ckarta.Error.init; state = pending }, ok)

-- What an attempt on the state does with the value that it finds: return, or exchange it.
pub data Attempt : Type 0 where
  answer : Status → Attempt
  claim : ℕ → Attempt

abbrev is_decided : ℕ → Bool
is_decided s = s == cancelling || s == failing || s == completed || s == failed

unfoldable pub begin_attempt : ℕ → Attempt
begin_attempt s = if s == pending then claim running else answer (code 1)

unfoldable pub cancel_attempt : ℕ → Attempt
cancel_attempt s =
    if is_decided s
    then answer (code 1)
    else if not (s == pending) && not (s == running)
    then answer minus_one
    else claim cancelling

unfoldable pub fail_attempt : ℕ → Attempt
fail_attempt s =
    if s == running
    then claim failing
    else if is_decided s
    then answer (code 1)
    else answer minus_one

unfoldable pub finish_attempt : ℕ → Attempt
finish_attempt s =
    if s == running
    then claim completed
    else if is_decided s
    then answer (code 1)
    else answer minus_one

abbrev pub attempted : Request → Attempt → Request × Status
attempted r (answer s) = (r, s)
attempted r (claim s) = (record r { state = s }, ok)

unfoldable pub begin : Request → Request × Status
unfolding begin_attempt
begin r = attempted r (begin_attempt r.state)

pub cancel : Request → Request × Status
unfolding cancel_attempt
cancel r = attempted r (cancel_attempt r.state)

unfoldable pub finish : Request → Request × Status
unfolding finish_attempt
finish r = attempted r (finish_attempt r.state)

-- The three steps of `fail`: the exchange, the error, and the store of FAILED.
unfoldable pub fail : Request → Error → Request × Status
unfolding fail_attempt
fail r e =
    if not (e.abi_version == ckarta.Error.abi_version)
    then (r, minus_one)
    else elim (fail_attempt r.state) [
      | answer s ↦ (r, s)
      | claim s ↦ (record r { error = e; state = failed }, ok)
    ]

pub error_of : Request → Option Error
error_of r = if not (r.state == failed) then none else some r.error
