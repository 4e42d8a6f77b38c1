-- ===== src/History/Flags/Examples.antt =====
-- The flags after the deletion of one image.
use mllm_windows_ai_workbenc.Prelude.{
  ◌≡◌, refl, none, some, [], ◌∷◌, any_of, has_code, is_tagged_hex, last_code, false,
}
use mllm_windows_ai_workbenc.Errors.{ok}
use mllm_windows_ai_workbenc.History.Record.{complete, is_valid_id, is_identity_id, is_plain}
use mllm_windows_ai_workbenc.History.Reading.{
  is_source, is_record_source, are_entries, is_valid_record, read_record,
}
use mllm_windows_ai_workbenc.History.Local.{Folder}
use mllm_windows_ai_workbenc.History.Flags.{Flags, add_record, committed_flags}
use mllm_windows_ai_workbenc.History.Flags.Receipts.{
  names, deletes, receipts, joined, committed_flags-receipts,
}
use mllm_windows_ai_workbenc.History.Recovery.Samples.{paths, tree, plan, tx}

abbrev folder : Folder
folder = record {
  name = tx;
  journal_file = none;
  journal_tmp_file = none;
  committed_file = some (complete plan);
  committed_tmp_file = none;
  bins = λ n. none;
  foreign = false;
}

abbrev no_flags : Flags
no_flags id = none

read_plan : committed_flags paths tree (folder ∷ []) no_flags ≡ ok (add_record plan no_flags)
unfolding committed_flags read_record is_valid_record is_valid_id are_entries is_record_source
    is_source is_plain is_identity_id has_code is_tagged_hex last_code
read_plan = refl

committed_flags-receipts_example :
    add_record plan no_flags "a"
    ≡ joined
        (any_of (names "a") (receipts (folder ∷ [])))
        (any_of (deletes "a") (receipts (folder ∷ [])))
        none
committed_flags-receipts_example =
    committed_flags-receipts paths tree (folder ∷ []) no_flags (add_record plan no_flags) read_plan
      "a"
