-- ===== src/Errors.antt =====
-- errors.py, and the exceptions that the modelled code raises or catches.
use mllm_windows_ai_workbenc.Prelude.{ℕ, Bool, true, false, ◌≡◌, refl}

-- The codes of the errors that the modelled routines raise.
pub data Code : Type 0 where
  disk_space_low : Code
  history_delete_path_invalid history_delete_recovery_required history_trash_full : Code
  history_delete_busy history_original_delete_failed history_delete_failed : Code
  job_not_found : Code
  identity_batch_not_found identity_batch_retry_conflict identity_batch_active : Code
  identity_batch_retry_invalid identity_batch_retry_empty identity_profile_conflict : Code
  identity_batch_save_failed identity_id_invalid identity_path_invalid identity_preview_invalid
        identity_preview_not_found :
      Code

-- `DreamApiError` without its user-visible text and its detail.
pub record DreamApiError : Type 0 where
  pub code : Code
  pub status_code : ℕ
  pub retryable : Bool

-- The defaults of the constructor: 503 and not retryable.
abbrev pub api_error : Code → DreamApiError
api_error c = record { code = c; status_code = 503; retryable = false }

abbrev pub retryable_error : Code → DreamApiError
retryable_error c = record { code = c; status_code = 503; retryable = true }

abbrev pub status_error : Code → ℕ → DreamApiError
status_error c n = record { code = c; status_code = n; retryable = false }

-- A Python exception, by the class that the `except` clauses tell apart.
pub data Exn : Type 0 where
  os_error value_error runtime_error type_error key_error index_error worker_cancelled : Exn
  attribute_error engine_unavailable engine_failed generation_cancelled : Exn
  api : DreamApiError → Exn

pub data Result {ℓ} (A : Type ℓ) : Type ℓ where
  ok : A → Result A
  raise : Exn → Result A

infixl 5 ◌>>=◌ ◌>>◌
abbrev pub ◌>>=◌ {ℓ κ} : {A : Type ℓ} {B : Type κ} → Result A → (A → Result B) → Result B
ok a >>= f = f a
raise e >>= f = raise e

abbrev pub ◌>>◌ {ℓ} : {B : Type ℓ} → Result (Unit {0}) → Result B → Result B
m >> k = m >>= λ _. k

-- `if not test: raise e`
abbrev pub guard : Bool → Exn → Result (Unit {0})
guard true e = ok tt
guard false e = raise e

-- What a chain that returns has gone through.
pub bound-ok :
    {A B : Type 0} (m : Result A) (f : A → Result B) (b : B)
    → (m >>= f) ≡ ok b
    → (a : A) × (m ≡ ok a) × (f a ≡ ok b)
bound-ok (ok a) f b h = (a, refl, h)
bound-ok (raise e) f b h = absurd (cc)

pub checked-ok :
    {A : Type 0} (t : Bool) (e : Exn) (k : Result A) (a : A)
    → (guard t e >> k) ≡ ok a
    → (t ≡ true) × (k ≡ ok a)
checked-ok true e k a h = (refl, h)
checked-ok false e k a h = absurd (cc)

pub guard-ok : {u : Unit {0}} (b : Bool) (e : Exn) → guard b e ≡ ok u → b ≡ true
guard-ok true e h = refl
guard-ok false e h = absurd (cc)
