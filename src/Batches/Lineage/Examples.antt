-- ===== src/Batches/Lineage/Examples.antt =====
-- A batch of two images, and a retry of its second one.
use mllm_windows_ai_workbenc.Prelude.{
  ◌≡◌, ◌≢◌, refl, String, true, none, some, [], ◌∷◌, arith, put, elem, is_hex_run, is_tagged_hex,
  get_elem?, Option, str_eq, Bool-cases, inl, inr,
}
use mllm_windows_ai_workbenc.Errors.{ok}
use mllm_windows_ai_workbenc.History.Record.{is_identity_id, is_batch_id}
use mllm_windows_ai_workbenc.Batches.Model.{Batch, failed, unfinished}
use mllm_windows_ai_workbenc.Batches.Matrix.{
  bounded_matrix, in_range, item_requests, deduplicated, first_ones, row, rows,
}
use mllm_windows_ai_workbenc.Batches.Running.{image, batch_id, any_request, seeded, asked, saved}
use mllm_windows_ai_workbenc.Batches.Lineage.{
  option_eq, list_eq, params_eq, request_eq, is_item, is_shaped, validated, is_distinct,
  is_increasing, range, indices_of, zip_lookup, is_retry_of, retries, all_retries, is_root,
  is_linked, fits_parent, parent_of, link_of, origin, is_counted, ascend, settle, validate_lineage,
}
use mllm_windows_ai_workbenc.Batches.Lineage.Origins.{validate_lineage-origins}
use mllm_windows_ai_workbenc.Batches.Lineage.Endings.{validate_lineage-ends}

abbrev third_id : String
third_id = "identity-aaaaaaaaaaaaaaaaaaaaaaaa"

abbrev again : Batch
again = record asked {
  id = "batch-bbbbbbbbbbbbbbbbbbbbbbbb";
  items = record (image third_id failed) { request = seeded 8 } ∷ [];
  current_item = 0;
  total_items = 1;
  completed_items = 0;
  parent = some batch_id;
  indices = some (1 ∷ []);
  mode = some unfinished;
  key_hash = some "0123456789abcdef0123456789abcdef0123456789abcdef0123456789abcdef";
}

again_valid : validate_lineage any_request saved 3 [] again ≡ some (ok tt)
unfolding validate_lineage settle ascend is_counted origin link_of parent_of fits_parent is_linked
    is_root all_retries retries is_retry_of zip_lookup indices_of range is_increasing is_distinct
    validated is_shaped is_item request_eq params_eq option_eq list_eq bounded_matrix in_range
    item_requests deduplicated first_ones row rows is_identity_id is_batch_id is_hex_run
    is_tagged_hex
again_valid = refl

again_indices : get_elem? (indices_of again) 0 ≡ some 1
unfolding indices_of
again_indices = refl

validate_lineage-origins_example :
    get_elem? (item_requests (deduplicated again.request)) 1 ≡ some (seeded 8)
validate_lineage-origins_example =
    validate_lineage-origins any_request saved 3 [] again 0 1
      (record (image third_id failed) { request = seeded 8 }) again_valid refl again_indices

-- A batch that names itself as its parent.
abbrev looped : Batch
looped = record again { parent = some again.id }

abbrev loop : String → Option Batch
loop = put again.id (some looped) (λ k. none)

validate_lineage-ends_example : validate_lineage any_request loop 3 [] looped ≢ none
validate_lineage-ends_example =
    validate_lineage-ends any_request loop (again.id ∷ []) 3 looped known (omega arith)
  where
    known : (k : String) (p : Batch) → loop k ≡ some p → elem k (again.id ∷ []) ≡ true
    known k p h = elim (Bool-cases (str_eq again.id k)) [
      | inl e ↦ rw e refl
      | inr e ↦ absurd (cc (rw e at h))
    ]
