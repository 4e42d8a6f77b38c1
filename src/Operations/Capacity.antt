-- ===== src/Operations/Capacity.antt =====
-- `_disk_status` and `ensure_generation_capacity` of operations.py.
use mllm_windows_ai_workbenc.Prelude.{
  ℕ, ◌*◌, ◌^◌, ◌≤◌, ◌<◌, ◌≡◌, ◌↔◌, ◌⊎◌, inl, inr, Bool, true, false, not, Option, none, some, arith,
  ltb, if◌then◌else◌,
}
use mllm_windows_ai_workbenc.Errors.{DreamApiError, disk_space_low, Result, ok, raise, api}

abbrev pub gib : ℕ
gib = 1024 ^ 3

abbrev pub warning_bytes : ℕ
warning_bytes = 10 * gib

abbrev pub blocking_bytes : ℕ
blocking_bytes = 2 * gib

-- What `shutil.disk_usage(...).free` gives: an OSError or ValueError, a natural number, or a value
-- that is no int or is negative.
pub data Measurement : Type 0 where
  failed odd : Measurement
  bytes : ℕ → Measurement

pub data Status : Type 0 where
  unknown blocked warning ok_space : Status

pub record DiskStatus : Type 0 where
  pub status : Status
  pub free_bytes : Option ℕ
  pub generation_allowed : Option Bool

abbrev is_blocked : Status → Bool
is_blocked blocked = true
is_blocked _ = false

measured_free : Measurement → Option ℕ
measured_free (bytes n) = some n
measured_free _ = none

status_of : Option ℕ → Status
status_of none = unknown
status_of (some free) =
    if ltb free blocking_bytes
    then blocked
    else if ltb free warning_bytes
    then warning
    else ok_space

allowed_of : Option ℕ → Status → Option Bool
allowed_of none s = none
allowed_of (some free) s = some (not (is_blocked s))

pub disk_status : Measurement → DiskStatus
unfolding measured_free status_of allowed_of
disk_status m =
    let free = measured_free m in
    let status = status_of free in
    record { status = status; free_bytes = free; generation_allowed = allowed_of free status }

abbrev pub capacity_error : DreamApiError
capacity_error = record { code = disk_space_low; status_code = 507; retryable = true }

unfoldable pub ensure_generation_capacity : Measurement → Result DiskStatus
unfolding disk_status
ensure_generation_capacity m =
    let result = disk_status m in
    if is_blocked result.status then raise (api capacity_error) else ok result

-- The request is refused, by an HTTP 507, exactly when a measured free space lies below 2 GiB: an
-- unknown capacity never refuses.
pub ensure_generation_capacity-refuses :
    (m : Measurement)
    → (ensure_generation_capacity m ≡ raise (api capacity_error))
      ↔ ((n : ℕ) × (m ≡ bytes n) × (n < blocking_bytes))
unfolding ensure_generation_capacity
ensure_generation_capacity-refuses (bytes n) =
    (λ h. (n, ground arith, ground arith), λ (k, e, lt). ground arith)
ensure_generation_capacity-refuses failed = (λ h. cc, λ (k, e, lt). cc)
ensure_generation_capacity-refuses odd = (λ h. cc, λ (k, e, lt). cc)

-- Where the request goes on, the reported status agrees with its own flag: generation is not known
-- to be allowed exactly when the free space is unknown, and is never reported as forbidden.
pub ensure_generation_capacity-allows :
    (m : Measurement) (d : DiskStatus)
    → ensure_generation_capacity m ≡ ok d
    → ((d.free_bytes ≡ none) × (d.generation_allowed ≡ none) × (d.status ≡ unknown))
      ⊎ ((n : ℕ) × (d.free_bytes ≡ some n)
          × (blocking_bytes ≤ n)
          × (d.generation_allowed ≡ some true)
          × (d.status ≡ ok_space → warning_bytes ≤ n)
          × (warning_bytes ≤ n → d.status ≡ ok_space))
unfolding ensure_generation_capacity
ensure_generation_capacity-allows (bytes n) d h =
    inr (n, ground arith, ground arith, ground arith, λ e. ground arith, λ le. ground arith)
ensure_generation_capacity-allows failed d h = inl (ground arith, ground arith, ground arith)
ensure_generation_capacity-allows odd d h = inl (ground arith, ground arith, ground arith)
