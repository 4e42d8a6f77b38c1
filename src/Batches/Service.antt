-- ===== src/Batches/Service.antt =====
-- `submit`, and the checks of other parts of the service that a new batch has to pass.
use mllm_windows_ai_workbenc.Prelude.{ℕ, String, Bool, ◌&&◌, Option, none, some, List, ◌==◌, str_eq}
use mllm_windows_ai_workbenc.Errors.{
  Exn, Result, ok, raise, api, status_error, guard, ◌>>=◌, ◌>>◌, identity_batch_retry_conflict,
  identity_batch_retry_invalid, identity_profile_conflict,
}
use mllm_windows_ai_workbenc.Operations.Capacity.{Measurement}
use mllm_windows_ai_workbenc.Batches.Model.{Params, BatchRequest, Batch, Mode}
use mllm_windows_ai_workbenc.Batches.Matrix.{item_requests}
use mllm_windows_ai_workbenc.Batches.Store.{Store}
use mllm_windows_ai_workbenc.Batches.Completion.{Outside, or_else}
use mllm_windows_ai_workbenc.Batches.Submission.{submit_frozen}
use mllm_windows_ai_workbenc.Batches.Attempt.{Index, Desk, Drawn, opened}

-- A person's profile, as far as it is compared.
pub record Profile : Type 0 where
  pub is_ready : Bool
  pub kind : String
  pub reference_id : String
  pub face_index : ℕ

-- The JSON object of a batch's file: the fields that are read before it is validated, and the whole
-- where it has the fields of a record.
pub record Saved : Type 0 where
  pub key_hash : Option String
  pub parent : Option String
  pub mode : Option Mode
  pub whole : Option Batch

-- What the other parts of the service and the libraries answer: `_require_open`,
-- `request_reference_kind`, `_validate_face`, `reference_image`, the binding of `resolve_request`,
-- `profiles.get`, `_require_visual_polish_ready`, the free disk space, SHA-256 of an id and a key,
-- `secrets.randbelow`, `glob` and `read_json` of the batches' files, the keys of `records`, and the
-- validation of `IdentityGenerateRequest`.
pub record Service : Type 0 where
  pub is_open : Result (Unit {0})
  pub kind : Params → String
  pub face : String → ℕ → String → Result (Unit {0})
  pub image : String → Result (Unit {0})
  pub binding : Params → Result (Option String)
  pub profile : String → Result Profile
  pub polish : BatchRequest → Result (Unit {0})
  pub free : Measurement
  pub digest : String → String → String
  pub seed : ℕ
  pub names : List String
  pub disk : String → Result Saved
  pub keys : List String
  pub contract : Params → Bool

abbrev pub conflict : Exn
conflict = api (status_error identity_batch_retry_conflict 409)

abbrev pub invalid : Exn
invalid = api (status_error identity_batch_retry_invalid 409)

abbrev pub profile_conflict : Exn
profile_conflict = api (status_error identity_profile_conflict 409)

unfoldable pub fits_profile : Params → String → Profile → Bool
fits_profile params kind p =
    p.is_ready
    && str_eq p.kind kind
    && str_eq p.reference_id params.reference_id
    && (p.face_index == params.face_index)

unfoldable pub check_profile : Service → Option String → Params → Result (Unit {0})
check_profile svc none params = ok tt
check_profile svc (some id) params =
    svc.profile id >>= λ p. guard (fits_profile params (svc.kind params) p) profile_conflict

unfoldable pub check_request : Service → BatchRequest → Result (Unit {0})
check_request svc r =
    svc.is_open
    >> svc.face r.request.reference_id r.request.face_index (svc.kind r.request)
    >> (svc.binding r.request >>= λ _. check_profile svc r.profile_id r.request)

-- The random seed is drawn once.
abbrev pub frozen_request : Service → BatchRequest → BatchRequest
frozen_request svc r = record r {
  request = record r.request { seed = some (or_else r.request.seed svc.seed) };
}

unfoldable pub submit :
    Outside
    → Service
    → Drawn
    → BatchRequest
    → Option Index
    → List String
    → Store
    → Result Batch × Desk
submit env svc drawn r index ids s = elim (check_request svc r) [
  | raise e ↦ (raise e, opened index ids s)
  | ok u ↦
      submit_frozen env drawn (frozen_request svc r) (item_requests (frozen_request svc r)) none
        index ids s
]
