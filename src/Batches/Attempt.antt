-- ===== src/Batches/Attempt.antt =====
-- The body of `_submit_frozen`: the files that it writes, and what it publishes.
use mllm_windows_ai_workbenc.Prelude.{
  ℕ, String, Bool, true, false, not, ◌&&◌, Option, none, some, List, [], ◌∷◌, ◌++◌, map, put,
  length, all_of,
}
use mllm_windows_ai_workbenc.Errors.{Result, ok, raise, value_error}
use mllm_windows_ai_workbenc.Batches.Model.{Params, BatchRequest, Item, Batch, Mode, queued, whole}
use mllm_windows_ai_workbenc.Batches.Store.{Store, write, save}
use mllm_windows_ai_workbenc.Batches.Ending.{is_there}
use mllm_windows_ai_workbenc.Batches.Lineage.{is_distinct}

-- The file `index.json` of the jobs: the ids that it lists, or bytes that are not such a list.
pub data Index : Type 0 where
  listing : List String → Index
  unreadable : Index

-- The shared state, the index and the ids of `_jobs` in their order; and the routine's own
-- variables: the job files that were attempted (the last one first), whether the batch's file and
-- the index were, the index before, and whether the rollback has left a file behind.
pub record Desk : Type 0 where
  pub store : Store
  pub index : Option Index
  pub ids : List String
  pub attempted : List String
  pub batch_attempted : Bool
  pub index_attempted : Bool
  pub prior_index : Option Index
  pub cleanup_failed : Bool

pub record Provenance : Type 0 where
  pub parent : String
  pub indices : List ℕ
  pub mode : Mode
  pub key_hash : String

-- What `secrets` draws, and what `_submit_background` does.
pub record Drawn : Type 0 where
  pub batch_id : String
  pub item_ids : List String
  pub enqueued : Result (Unit {0})

unfoldable pub new_items : List String → List Params → List Item
new_items [] ps = []
new_items (id ∷ ids) [] = []
new_items (id ∷ ids) (p ∷ ps) =
    record {
      id = id;
      state = queued;
      progress = whole 0;
      message = "等待批次生成";
      request = p;
      result = none;
      error = none;
      anime_binding = none;
    }
    ∷ new_items ids ps

abbrev optional {ℓ} : {A : Type ℓ} → (Provenance → A) → Option Provenance → Option A
optional f none = none
optional f (some p) = some (f p)

unfoldable pub new_batch : String → BatchRequest → List Item → Option Provenance → Batch
new_batch id frozen items provenance = record {
  id = id;
  state = queued;
  request = frozen;
  items = items;
  current_item = 0;
  total_items = length items;
  completed_items = 0;
  step = 0;
  total_steps = 0;
  progress = whole 0;
  stage = "等待本地生成队列";
  elapsed_ms = 0;
  eta_ms = none;
  preview_url = none;
  error = none;
  parent = optional (λ p. p.parent) provenance;
  indices = optional (λ p. p.indices) provenance;
  mode = optional (λ p. p.mode) provenance;
  key_hash = optional (λ p. p.key_hash) provenance;
}

abbrev pub ids_of : List Item → List String
ids_of items = map (λ (x : Item). x.id) items

-- No id is used twice, on the disk or in memory.
unfoldable pub is_free : String → List Item → Store → Bool
is_free batch_id items s =
    is_distinct (ids_of items)
    && all_of (λ (x : Item). not (is_there (s.job_files x.id))) items
    && not (is_there (s.batch_files batch_id))
    && all_of (λ (x : Item). not (is_there (s.jobs x.id))) items

-- A step of the routine.
abbrev pub Stage : Type 0 → Type 0
Stage A = Desk → Result A × Desk

abbrev pub follow : {A B : Type 0} → Result A × Desk → (A → Stage B) → Result B × Desk
follow (ok a, d) k = k a d
follow (raise e, d) k = (raise e, d)

-- A write whose effect is `f`.
abbrev pub written : (Desk → Desk) → Desk → Result (Unit {0}) × Store → Result (Unit {0}) × Desk
written f d (ok u, t) = (ok tt, f (record d { store = t }))
written f d (raise e, t) = (raise e, record d { store = t })

-- prior_index = read_json(index_path), if it exists
unfoldable pub read_index : Stage (Unit {0})
read_index d = elim d.index [
  | none ↦ (ok tt, d)
  | some (listing ids) ↦ (ok tt, record d { prior_index = some (listing ids) })
  | some unreadable ↦ (raise value_error, d)
]

abbrev pub put_job_file : Item → Desk → Desk
put_job_file x d = record d {
  store = record d.store { job_files = put x.id (some x) d.store.job_files };
}

-- attempted.append(path); atomic_json(path, item)
unfoldable pub save_item : Item → Stage (Unit {0})
save_item x d =
    let e : Desk = record d { attempted = x.id ∷ d.attempted } in
    written (put_job_file x) e (write e.store)

unfoldable pub save_items : List Item → Stage (Unit {0})
save_items [] d = (ok tt, d)
save_items (x ∷ xs) d = follow (save_item x d) (λ _. save_items xs)

abbrev pub put_index : List Item → Desk → Desk
put_index items d = record d { index = some (listing (d.ids ++ ids_of items)) }

unfoldable pub save_index : List Item → Stage (Unit {0})
save_index items d =
    let e : Desk = record d { index_attempted = true } in
    written (put_index items) e (write e.store)

abbrev pub kept : Desk → Result Batch × Store → Result Batch × Desk
kept d (ok r, t) = (ok r, record d { store = t })
kept d (raise e, t) = (raise e, record d { store = t })

-- attempted.append(batch_path); initial = self._save(record)
unfoldable pub save_batch : Batch → Stage Batch
save_batch r d = let e : Desk = record d { batch_attempted = true } in kept e (save r e.store)

abbrev pub publish_item : String → Item → Store → Store
publish_item batch_id x s = record s {
  jobs = put x.id (some x) s.jobs;
  owners = put x.id (some batch_id) s.owners;
}

unfoldable pub publish : String → List Item → Store → Store
publish batch_id [] s = s
publish batch_id (x ∷ xs) s = publish batch_id xs (publish_item batch_id x s)

unfoldable pub publish_all : String → List Item → Stage (Unit {0})
publish_all batch_id items d =
    (ok tt, record d { store = publish batch_id items d.store; ids = d.ids ++ ids_of items })

-- The body of the `try`.
unfoldable pub attempt : Drawn → List Item → Batch → Stage Batch
attempt drawn items r d = follow (read_index d) λ _ d. follow (save_items items d) λ _ d.
    follow (save_index items d) λ _ d. follow (save_batch r d) λ initial d.
      follow (publish_all drawn.batch_id items d)
        λ _ d. follow (drawn.enqueued, d) λ _ d. (ok initial, d)

abbrev pub opened : Option Index → List String → Store → Desk
opened index ids s = record {
  store = s;
  index = index;
  ids = ids;
  attempted = [];
  batch_attempted = false;
  index_attempted = false;
  prior_index = none;
  cleanup_failed = false;
}
