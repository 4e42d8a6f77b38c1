-- ===== src/Batches/Submission/Atomic.antt =====
-- How a submission ends, over all its failures.
use mllm_windows_ai_workbenc.Prelude.{
  ◌≡◌, refl, subst, String, Bool, true, false, not, ◌⊎◌, inl, inr, Option, none, some, List, [],
  ◌∷◌, str_eq, str_eq_iff, elem, Bool-cases, &&-eq-true, if◌then◌else◌, all_of,
}
use mllm_windows_ai_workbenc.Errors.{Result, ok, raise, runtime_error}
use mllm_windows_ai_workbenc.Batches.Model.{Params, BatchRequest, Item, Batch}
use mllm_windows_ai_workbenc.Batches.Store.{Store, stamped}
use mllm_windows_ai_workbenc.Batches.Completion.{Outside}
use mllm_windows_ai_workbenc.Batches.Ending.{is_there}
use mllm_windows_ai_workbenc.Batches.Submission.{save_failed, recovered, conclude, submit_frozen}
use mllm_windows_ai_workbenc.Batches.Attempt.{
  Desk, Index, Drawn, ids_of, is_free, new_items, new_batch, attempt, opened,
}
use mllm_windows_ai_workbenc.Batches.Submission.Trying.{Kept}
use mllm_windows_ai_workbenc.Batches.Lineage.{is_distinct}
use mllm_windows_ai_workbenc.Batches.Submission.Saving.{Succeeds}
use mllm_windows_ai_workbenc.Batches.Submission.Attempting.{
  attempt-Kept, Submitted, attempt-Submitted,
}
use mllm_windows_ai_workbenc.Batches.Submission.Undone.{Fresh, Undone, roll_back-Undone}

absent : {V : Type 0} (o : Option V) → not (is_there o) ≡ true → o ≡ none
absent none h = refl
absent (some v) h = absurd (cc (h))

all_of-none :
    {V : Type 0} (f : String → Option V) (items : List Item)
    → all_of (λ (x : Item). not (is_there (f x.id))) items ≡ true
    → (k : String) → elem k (ids_of items) ≡ true
    → f k ≡ none
all_of-none f [] h k e = absurd (cc (e))
all_of-none f (x ∷ xs) h k e =
    let (a, b) =
      &&-eq-true (not (is_there (f x.id))) (all_of (λ (x : Item). not (is_there (f x.id))) xs) h in
    elim (Bool-cases (str_eq x.id k)) [
      | inl q ↦ subst (λ k. f k ≡ none) ((str_eq_iff x.id k).0 q) (absent (f x.id) a)
      | inr q ↦ all_of-none f xs b k (cc (rw q at e))
    ]

is_free-Fresh :
    (id : String) (items : List Item) (s : Store)
    → s.records id ≡ none
    → ((k : String) → elem k (ids_of items) ≡ true → s.owners k ≡ none)
    → is_free id items s ≡ true
    → (is_distinct (ids_of items) ≡ true) × Fresh id (ids_of items) s
unfolding is_free
is_free-Fresh id items s unknown unowned h =
    let (ab, d) = &&-eq-true _ _ h in
    let (a, c) = &&-eq-true _ _ ab in
    let (distinct, b) = &&-eq-true _ _ a in
    (
      distinct,
      record {
        jobs = all_of-none s.jobs items d;
        owners = unowned;
        job_files = all_of-none s.job_files items b;
        records = unknown;
        batch_files = absent (s.batch_files id) c;
      },
    )

-- How a submission can end.
abbrev pub Outcome :
    String → List Item → Batch → Store → Option Index → List String → Result Batch × Desk → Type 0
Outcome id items r s index ids (ok q, d) = (q ≡ r) × Submitted id items r ids d
Outcome id items r s index ids (raise e, d) = (e ≡ save_failed) × Undone s index d

concluded :
    (env : Outside) (id : String) (items : List Item) (r : Batch) (s : Store) (index : Option Index)
    (ids : List String) (o : Result Batch × Desk)
    → Fresh id (ids_of items) s
    → Kept id (ids_of items) s index (o.1)
    → Succeeds (λ q e. (q ≡ r) × Submitted id items r ids e) o
    → Outcome id items r s index ids (conclude env id items none o)
unfolding conclude recovered
concluded env id items r s index ids (ok q, d) f p h = h
concluded env id items r s index ids (raise e, d) f p h =
    rw h (refl, roll_back-Undone id items s index d f p)

-- Whichever write, removal or queueing fails, a submission that retries nothing returns the new
-- batch, and then it, all its images and the index are saved and published; or it raises the one
-- error, and then the batches, jobs and owners in memory are as before, and so are the files and
-- the index, unless the rollback itself has met a failure. The new ids are known to no batch, and
-- the queue accepts the batch or raises a RuntimeError.
pub submit_frozen_atomic :
    (env : Outside) (drawn : Drawn) (frozen : BatchRequest) (requests : List Params)
    (index : Option Index) (ids : List String) (s : Store)
    → s.records drawn.batch_id ≡ none
    → ((k : String)
        → elem k (ids_of (new_items drawn.item_ids requests)) ≡ true
        → s.owners k ≡ none)
    → (drawn.enqueued ≡ ok tt) ⊎ (drawn.enqueued ≡ raise runtime_error)
    → let items = new_items drawn.item_ids requests in
      Outcome drawn.batch_id items
        (new_batch drawn.batch_id frozen items none)
        s
        index
        ids
        (submit_frozen env drawn frozen requests none index ids s)
unfolding submit_frozen new_batch stamped
submit_frozen_atomic env drawn frozen requests index ids s unknown unowned enqueued =
    go (is_free drawn.batch_id items s) refl
  where
    items : List Item
    items = new_items drawn.item_ids requests

    r : Batch
    r = new_batch drawn.batch_id frozen items none

    go :
        (b : Bool)
        → is_free drawn.batch_id items s ≡ b
        → Outcome drawn.batch_id items r s index ids (
            if b
            then conclude env drawn.batch_id items none (attempt drawn items r (opened index ids s))
            else (raise save_failed, opened index ids s))
    go false e = (
      refl,
      record {
        jobs = λ k. refl;
        owners = λ k. refl;
        records = λ k. refl;
        files = inr (λ k. refl, λ k. refl, refl);
      },
    )
    go true e =
        let (distinct, f) = is_free-Fresh drawn.batch_id items s unknown unowned e in
        concluded env drawn.batch_id items r s index ids
          (attempt drawn items r (opened index ids s)) f
          (attempt-Kept drawn.batch_id items s index drawn r ids refl refl)
          (attempt-Submitted drawn items r index ids s refl (λ t. refl) distinct enqueued)
