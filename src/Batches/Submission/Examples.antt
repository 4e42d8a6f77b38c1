-- ===== src/Batches/Submission/Examples.antt =====
-- A submission of two images whose third write fails.
use mllm_windows_ai_workbenc.Prelude.{refl, inl, true, false, none, some, [], ◌∷◌}
use mllm_windows_ai_workbenc.Errors.{ok}
use mllm_windows_ai_workbenc.Batches.Store.{Store}
use mllm_windows_ai_workbenc.Batches.Running.{
  base, two_by_two, first_id, second_id, batch_id, outside, store,
}
use mllm_windows_ai_workbenc.Batches.Submission.{submit_frozen}
use mllm_windows_ai_workbenc.Batches.Attempt.{listing, Drawn, new_items, new_batch}
use mllm_windows_ai_workbenc.Batches.Submission.Atomic.{Outcome, submit_frozen_atomic}

abbrev empty_store : Store
empty_store = record store {
  records = λ k. none;
  batch_files = λ k. none;
  owners = λ k. none;
  jobs = λ k. none;
  writes = true ∷ true ∷ false ∷ [];
}

abbrev drawn : Drawn
drawn = record { batch_id = batch_id; item_ids = first_id ∷ second_id ∷ []; enqueued = ok tt }

submit_frozen_atomic_example :
    Outcome batch_id
      (new_items (first_id ∷ second_id ∷ []) (base ∷ base ∷ []))
      (new_batch batch_id two_by_two
        (new_items (first_id ∷ second_id ∷ []) (base ∷ base ∷ []))
        none)
      empty_store
      (some (listing []))
      []
      (submit_frozen outside drawn two_by_two
        (base ∷ base ∷ [])
        none
        (some (listing []))
        []
        empty_store)
submit_frozen_atomic_example =
    submit_frozen_atomic outside drawn two_by_two (base ∷ base ∷ []) (some (listing [])) []
      empty_store refl (λ k h. refl) (inl refl)
