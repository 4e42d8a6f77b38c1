-- ===== src/Batches/Retry/Examples.antt =====
-- A retry of the image that has failed.
use mllm_windows_ai_workbenc.Prelude.{
  ◌≡◌, refl, String, true, none, some, [], ◌∷◌, is_hex_run, is_tagged_hex, get_elem?,
}
use mllm_windows_ai_workbenc.Errors.{ok, raise, os_error}
use mllm_windows_ai_workbenc.History.Record.{is_identity_id, is_batch_id}
use mllm_windows_ai_workbenc.Operations.Capacity.{odd, ensure_generation_capacity}
use mllm_windows_ai_workbenc.Batches.Model.{Batch, unfinished}
use mllm_windows_ai_workbenc.Batches.Matrix.{
  bounded_matrix, in_range, item_requests, deduplicated, first_ones, row, rows,
}
use mllm_windows_ai_workbenc.Batches.Store.{Store, load}
use mllm_windows_ai_workbenc.Batches.Running.{batch_id, any_request, seeded, asked, saved, store}
use mllm_windows_ai_workbenc.Batches.Lineage.{
  option_eq, list_eq, params_eq, request_eq, is_item, is_shaped, validated, is_distinct, range,
  indices_of, is_root, origin, is_counted, ascend, settle, validate_lineage,
}
use mllm_windows_ai_workbenc.Batches.Attempt.{Provenance}
use mllm_windows_ai_workbenc.Batches.Retry.{
  fresh, or_raise, read_or_conflict, matching, lineage, state_code, member_eq, same_frozen,
  durable_of, check_frozen, check_saved, check_parent, selected, check_image, check_images,
  originals, check_new, planned, plan_new, plan_for, plan_retry,
}
use mllm_windows_ai_workbenc.Batches.Service.{Service, check_profile}
use mllm_windows_ai_workbenc.Batches.Retry.Origins.{Retaken, plan_retry-origins}

abbrev key : String
key = "0123456789abcdef0123456789abcdef0123456789abcdef0123456789abcdef"

-- A service whose checks all pass and whose disk has the batch that is retried.
abbrev service : Service
service = record {
  is_open = ok tt;
  kind = λ p. "faceid";
  face = λ r i k. ok tt;
  image = λ r. ok tt;
  binding = λ p. ok none;
  profile = λ p. raise os_error;
  polish = λ r. ok tt;
  free = odd;
  digest = λ i k. key;
  seed = 0;
  names = batch_id ∷ [];
  disk = λ n. ok (record { key_hash = none; parent = none; mode = none; whole = some asked });
  keys = batch_id ∷ [];
  contract = any_request;
}

abbrev shelf : Store
shelf = record store { records = saved }

abbrev from : Provenance
from = record { parent = batch_id; indices = 1 ∷ []; mode = unfinished; key_hash = key }

plan_found :
    plan_retry service shelf batch_id unfinished "again"
    ≡ ok (fresh asked.request (seeded 8 ∷ []) from)
unfolding plan_retry plan_for plan_new planned check_new originals check_images check_image selected
    check_parent check_saved check_frozen durable_of same_frozen member_eq state_code lineage
    matching or_raise read_or_conflict check_profile load validate_lineage settle ascend is_counted
    origin is_root indices_of range is_distinct validated is_shaped is_item request_eq params_eq
    option_eq list_eq bounded_matrix in_range item_requests deduplicated first_ones row rows
    is_identity_id is_batch_id is_hex_run is_tagged_hex ensure_generation_capacity
plan_found = refl

plan_retry-origins_example :
    (parent : Batch) × ((load true batch_id shelf).0 ≡ ok parent)
    × Retaken parent unfinished 1 (seeded 8)
    × (get_elem? (item_requests (deduplicated asked.request)) 1 ≡ some (seeded 8))
plan_retry-origins_example =
    plan_retry-origins service shelf batch_id unfinished "again" asked.request (seeded 8 ∷ []) from
      0 1 (seeded 8) plan_found refl refl
