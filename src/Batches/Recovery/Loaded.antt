-- ===== src/Batches/Recovery/Loaded.antt =====
-- Whose the images are after `load_for_recovery`, and which batches it takes over.
use mllm_windows_ai_workbenc.Prelude.{
  ◌⊎◌, List, [], ◌≡◌, ◌≢◌, suc, String, Bool, true, false, ◌⊎◌, some, List, [], elem, length,
}
use mllm_windows_ai_workbenc.Errors.{DreamApiError, ok, raise, api}
use mllm_windows_ai_workbenc.History.Record.{is_batch_id}
use mllm_windows_ai_workbenc.Batches.Model.{Params, Batch}
use mllm_windows_ai_workbenc.Batches.Store.{Store}
use mllm_windows_ai_workbenc.Batches.Lineage.{validate_lineage}
use mllm_windows_ai_workbenc.Batches.Attempt.{ids_of}
use mllm_windows_ai_workbenc.Batches.Recovery.{
  BatchFile, Folder, check_file, Gathered, gather, by_id, is_passed, nothing_gathered,
}
use mllm_windows_ai_workbenc.Batches.Recovery.Gathering.{Among, Sifted}
use mllm_windows_ai_workbenc.Batches.Recovery.Owners.{Owned}

abbrev pub gathered : Folder → (Params → Bool) → Gathered
gathered env contract = gather env contract env.files nothing_gathered

-- A file of a batch that passes every check.
pub record Passes (env : Folder) (contract : Params → Bool) (f : BatchFile) (r : Batch)
    : Type 0 where
  pub there : Among f env.files
  pub named : is_batch_id f.stem ≡ true
  pub checked : check_file env contract f ≡ ok r

-- Its lineage is valid among the batches that pass.
abbrev pub HasLineage : Folder → (Params → Bool) → Batch → Type 0
HasLineage env contract r =
    let rs = (gathered env contract).candidates in
    is_passed (validate_lineage contract (by_id rs) (suc (suc (length rs))) [] r) ≡ true

-- It shares no image with a batch that passes from another file.
abbrev pub Alone : Folder → (Params → Bool) → BatchFile → Batch → Type 0
Alone env contract f r =
    (f' : BatchFile) (q : Batch)
    → Passes env contract f' q
    → f'.stem ≢ f.stem
    → (i : String) → elem i (ids_of r.items) ≡ true
    → elem i (ids_of q.items) ≡ false

-- What a new process has taken over.
pub record Loaded (env : Folder) (contract : Params → Bool) (t : Store) : Type 0 where
  pub owned : Owned contract (gathered env contract) t
  pub sifted : Sifted env contract env.files (gathered env contract)
  pub candidates :
      (f : BatchFile) (r : Batch)
      → Passes env contract f r
      → Among r (gathered env contract).candidates
  pub complete :
      (f : BatchFile) (r : Batch)
      → Passes env contract f r
      → HasLineage env contract r
      → Alone env contract f r
      → t.records r.id ≡ some r

-- The outputs' paths of a file's images lead out of Dream.
abbrev pub Escapes : Folder → (Params → Bool) → List BatchFile → Type 0
Escapes env contract fs =
    (f : BatchFile) × (e : DreamApiError) × Among f fs
    × (is_batch_id f.stem ≡ true)
    × (check_file env contract f ≡ raise (api e))
