-- ===== src/Batches/Submission.antt =====
-- `_submit_frozen` and the rollback of what it has written and published.
pub mod Trying
pub mod Undoing
pub mod Undone
pub mod Saving
pub mod Attempting
pub mod Atomic
mod Examples
use mllm_windows_ai_workbenc.Prelude.{
  ℕ, String, Bool, true, false, not, ◌&&◌, ◌||◌, Option, none, some, List, [], ◌∷◌, ◌++◌, map, elem,
  put, if◌then◌else◌, length, all_of,
}
use mllm_windows_ai_workbenc.Errors.{
  Exn, Result, ok, raise, os_error, value_error, runtime_error, api, status_error,
  identity_batch_save_failed,
}
use mllm_windows_ai_workbenc.Batches.Model.{
  Params, BatchRequest, Item, Batch, Mode, queued, failed, whole,
}
use mllm_windows_ai_workbenc.Batches.Store.{Store, write, save}
use mllm_windows_ai_workbenc.Batches.Completion.{Outside}
use mllm_windows_ai_workbenc.Batches.Ending.{finish, is_there}
use mllm_windows_ai_workbenc.Batches.Lineage.{is_distinct}
use mllm_windows_ai_workbenc.Batches.Attempt.{
  Desk, Drawn, Index, Provenance, Stage, attempt, ids_of, is_free, new_batch, new_items, opened,
}

unfoldable pub forget_items : List Item → Store → Store
forget_items [] s = s
forget_items (x ∷ xs) s =
    forget_items xs (record s { jobs = put x.id none s.jobs; owners = put x.id none s.owners })

abbrev pub removed : (Store → Store) → Desk → Result (Unit {0}) × Store → Desk
removed f d (ok u, t) = record d { store = f t }
removed f d (raise e, t) = record d { store = t; cleanup_failed = true }

-- path.unlink(missing_ok=True): like a write, it may fail.
unfoldable pub unlink_jobs : List String → Desk → Desk
unlink_jobs [] d = d
unlink_jobs (id ∷ ids) d =
    unlink_jobs ids
      (removed (λ t. record t { job_files = put id none t.job_files }) d (write d.store))

unfoldable pub unlink_batch : String → Desk → Desk
unlink_batch id d =
    if d.batch_attempted
    then removed (λ t. record t { batch_files = put id none t.batch_files }) d (write d.store)
    else d

abbrev pub reindexed : Desk → Result (Unit {0}) × Store → Desk
reindexed d (ok u, t) = record d { store = t; index = d.prior_index }
reindexed d (raise e, t) = record d { store = t; cleanup_failed = true }

unfoldable pub restore_index : Desk → Desk
restore_index d = if d.index_attempted then reindexed d (write d.store) else d

unfoldable pub drop_ids : List String → List String → List String
drop_ids gone [] = []
drop_ids gone (k ∷ ks) = let rest = drop_ids gone ks in if elem k gone then rest else k ∷ rest

unfoldable pub forget : String → List Item → Desk → Desk
forget id items d = record d {
  store = forget_items items (record d.store { records = put id none d.store.records });
  ids = drop_ids (ids_of items) d.ids;
}

-- The rollback: memory first, then the files, the last one first, then the index.
unfoldable pub roll_back : String → List Item → Desk → Desk
roll_back id items d = restore_index (unlink_jobs d.attempted (unlink_batch id (forget id items d)))

-- except (OSError, ValueError, RuntimeError)
abbrev pub is_handled : Exn → Bool
is_handled os_error = true
is_handled value_error = true
is_handled runtime_error = true
is_handled _ = false

abbrev pub save_failed : Exn
save_failed = api (status_error identity_batch_save_failed 503)

abbrev pub stored : {A : Type 0} → Desk → Result A × Store → Result A × Desk
stored d (o, t) = (o, record d { store = t })

-- A retry that is saved keeps its id and ends as failed; anything else is taken back.
unfoldable pub recovered : Outside → String → List Item → Option Provenance → Stage Batch
recovered env id items provenance d =
    if is_there provenance && is_there (d.store.records id)
    then stored d (finish env id failed (some "重试批次已保存但未能入队，请检查队列后从该子批次重试") d.store)
    else (raise save_failed, roll_back id items d)

unfoldable pub conclude :
    Outside → String → List Item → Option Provenance → Result Batch × Desk → Result Batch × Desk
conclude env id items provenance (ok initial, d) = (ok initial, d)
conclude env id items provenance (raise e, d) =
    if is_handled e then recovered env id items provenance d else (raise e, d)

-- `_submit_frozen`
unfoldable pub submit_frozen :
    Outside
    → Drawn
    → BatchRequest
    → List Params
    → Option Provenance
    → Option Index
    → List String
    → Store
    → Result Batch × Desk
submit_frozen env drawn frozen requests provenance index ids s =
    let items = new_items drawn.item_ids requests in
    let r = new_batch drawn.batch_id frozen items provenance in
    let d = opened index ids s in
    if is_free drawn.batch_id items s
    then conclude env drawn.batch_id items provenance (attempt drawn items r d)
    else (raise save_failed, d)
