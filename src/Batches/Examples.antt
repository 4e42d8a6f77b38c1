-- ===== src/Batches/Examples.antt =====
-- Concrete batches.
use mllm_windows_ai_workbenc.Prelude.{
  ℕ, ◌+◌, ◌*◌, ◌%◌, ◌^◌, ◌≤◌, ◌<◌, Bool, true, none, some, [], ◌∷◌, arith, refl, ◌≡◌, ◌≢◌, ◌⊎◌,
  String, leb, length, get_elem?, all_of,
}
use mllm_windows_ai_workbenc.Errors.{Exn, ok, raise}
use mllm_windows_ai_workbenc.Batches.Model.{
  Params, BatchRequest, Batch, State, complete, queued, failed,
}
use mllm_windows_ai_workbenc.Batches.Matrix.{
  first_ones, deduplicated, bounded_matrix, item_requests, overrides,
}
use mllm_windows_ai_workbenc.Batches.Matrix.Shape.{
  item_requests_shape, bounded_matrix_bounds, Unrepeated,
}
use mllm_windows_ai_workbenc.Batches.Store.{Store}
use mllm_windows_ai_workbenc.Batches.Observed.{Event, step}
use mllm_windows_ai_workbenc.Batches.Completion.{prior_of, consume}
use mllm_windows_ai_workbenc.Batches.Completion.Sound.{Fit, Sound}
use mllm_windows_ai_workbenc.Batches.Completion.Posts.{Unsaved}
use mllm_windows_ai_workbenc.Batches.Completion.Consuming.{Next, consume-Sound}
use mllm_windows_ai_workbenc.Batches.Ending.{finish}
use mllm_windows_ai_workbenc.Batches.Ending.Ended.{Owned, Stuck, Finished, finish_ends}
use mllm_windows_ai_workbenc.Batches.Running.{
  base, two_by_two, image, first_id, second_id, batch_id, running, store, outside,
}

-- The same with a number of steps given twice.
abbrev with_repeat : BatchRequest
with_repeat = record two_by_two { step_values = some (10 ∷ 20 ∷ 10 ∷ []) }

abbrev few_steps : Params → Bool
few_steps p = leb p.steps 50

item_requests_shape_example :
    (length (item_requests two_by_two) ≡ 2 * 2)
    × ((i j n : ℕ)
        → i < 2
        → get_elem? (10 ∷ 20 ∷ []) j ≡ some n
        → get_elem? (item_requests two_by_two) (i * 2 + j)
          ≡ some (record base { seed = some ((2147483647 + i) % 2 ^ 31); steps = n }))
item_requests_shape_example = item_requests_shape two_by_two

accepted : bounded_matrix few_steps with_repeat ≡ ok two_by_two
unfolding bounded_matrix deduplicated first_ones
accepted = refl

bounded_matrix_bounds_example :
    (1 ≤ length (item_requests two_by_two))
    × (length (item_requests two_by_two) ≤ 16)
    × (length (overrides two_by_two) ≤ 4)
    × Unrepeated (overrides two_by_two)
    × (all_of (λ n. few_steps (record base { steps = n })) (overrides two_by_two) ≡ true)
bounded_matrix_bounds_example =
    bounded_matrix_bounds few_steps with_repeat two_by_two (omega arith) accepted

fit :
    (id : String) (state : State)
    → store.jobs id ≡ some (image id state)
    → Fit store (image id state)
fit id state h = record {
  job = image id state;
  settled = refl;
  there = h;
  named = refl;
  agrees = refl;
}

store-Sound : Sound running store
store-Sound = record {
  known = refl;
  first = (refl, (refl, tt));
  distinct = (refl, (refl, tt));
  fit = (fit first_id complete refl, (fit second_id queued refl, tt));
  current = omega arith;
  measured = omega arith;
}

abbrev fifth_step : Event
fifth_step = step 1000 1 5 20 none

consume-Sound_example :
    ((((consume outside batch_id (some fifth_step) store).0 ≡ ok tt)
        × ((q : Batch) × Next running q (consume outside batch_id (some fifth_step) store).1))
      ⊎ (((consume outside batch_id (some fifth_step) store).0 ≢ ok tt)
          × Unsaved store (consume outside batch_id (some fifth_step) store).1))
consume-Sound_example =
    consume-Sound outside batch_id (some fifth_step) store running refl store-Sound
      (consume outside batch_id (some fifth_step) store).0
      (consume outside batch_id (some fifth_step) store).1 refl

owned :
    (id : String) (state : State)
    → store.jobs id ≡ some (image id state)
    → Owned store (image id state)
unfolding prior_of
owned id state h = record { job = image id state; there = h; named = refl; prior_named = rw h refl }

finish_ends_example :
    ((q : Batch) × (t : Store) × (finish outside batch_id failed (some "stopped") store ≡ (ok q, t))
      × Finished outside failed (some "stopped") running store q t)
    ⊎ ((e : Exn) × (t : Store) × (finish outside batch_id failed (some "stopped") store
          ≡ (raise e, t))
        × Stuck outside failed (some "stopped") running.items store t)
finish_ends_example =
    finish_ends outside batch_id failed (some "stopped") store running refl (refl, (refl, tt))
      (owned first_id complete refl, (owned second_id queued refl, tt))
