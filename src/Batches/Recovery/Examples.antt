-- ===== src/Batches/Recovery/Examples.antt =====
-- Two files that name the same image, and a third one.
use mllm_windows_ai_workbenc.Prelude.{
  ◌≡◌, refl, String, true, none, some, [], ◌∷◌, map, is_hex_run, is_tagged_hex,
}
use mllm_windows_ai_workbenc.Batches.Model.{Batch, failed}
use mllm_windows_ai_workbenc.Batches.Store.{Store}
use mllm_windows_ai_workbenc.History.Record.{is_identity_id, is_batch_id}
use mllm_windows_ai_workbenc.Batches.Matrix.{
  bounded_matrix, in_range, item_requests, deduplicated, first_ones, row, rows,
}
use mllm_windows_ai_workbenc.Batches.Lineage.{
  option_eq, list_eq, params_eq, is_item, is_shaped, validated, is_distinct, is_root, origin,
  is_counted, ascend, settle, validate_lineage,
}
use mllm_windows_ai_workbenc.Batches.Running.{image, first_id, asked, seeded, store, any_request}
use mllm_windows_ai_workbenc.Batches.Recovery.{
  is_escape, escapes, BatchFile, Folder, no_file, check_child, check_children, check_record,
  check_file, take, gather, by_id, admits, put_owners, take_over, admit, load_for_recovery,
}
use mllm_windows_ai_workbenc.Batches.Recovery.Loaded.{Loaded}

abbrev third_id : String
third_id = "identity-aaaaaaaaaaaaaaaaaaaaaaaa"

abbrev fourth_id : String
fourth_id = "identity-bbbbbbbbbbbbbbbbbbbbbbbb"

abbrev separate : Batch
separate = record asked {
  id = "batch-cccccccccccccccccccccccc";
  items =
      record (image third_id failed) { request = seeded 7 }
      ∷ record (image fourth_id failed) { request = seeded 8 }
      ∷ [];
}

abbrev clashing : Batch
clashing = record asked {
  id = "batch-dddddddddddddddddddddddd";
  items =
      record (image first_id failed) { request = seeded 7 }
      ∷ record (image "identity-cccccccccccccccccccccccc" failed) { request = seeded 8 }
      ∷ [];
}

abbrev file_of : Batch → BatchFile
file_of r = record { stem = r.id; content = some r }

abbrev folder : Folder
folder = record {
  files = file_of asked ∷ file_of separate ∷ file_of clashing ∷ [];
  has_paths = λ r x. true;
  child_file = λ id. no_file;
}

abbrev empty : Store
empty = record store { records = λ k. none; owners = λ k. none }

-- The batches that share an image are left alone.
owners :
    map (load_for_recovery folder any_request empty).1.owners (first_id ∷ third_id ∷ [])
    ≡ none ∷ some separate.id ∷ []
unfolding load_for_recovery escapes is_escape gather take check_file check_record check_children
    check_child by_id admits put_owners take_over admit validate_lineage settle ascend is_counted
    origin is_root is_distinct validated is_shaped is_item params_eq option_eq list_eq
    bounded_matrix in_range item_requests deduplicated first_ones row rows is_identity_id
    is_batch_id is_hex_run is_tagged_hex
owners = refl
