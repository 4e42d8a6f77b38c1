-- ===== src/Batches/Running.antt =====
-- A batch of two images whose first is complete, and what its worker leaves on the disk.
use mllm_windows_ai_workbenc.Prelude.{
  ℕ, leb, Bool, Option, String, true, none, some, List, [], ◌∷◌, put,
}
use mllm_windows_ai_workbenc.Errors.{ok}
use mllm_windows_ai_workbenc.Batches.Model.{
  failed, Params, BatchRequest, Item, Batch, State, complete, queued, sampling, whole,
}
use mllm_windows_ai_workbenc.Batches.Store.{Store}
use mllm_windows_ai_workbenc.Batches.Completion.{Outside}

abbrev pub base : Params
base = record {
  reference_id = "reference";
  face_index = 0;
  seed = some 2147483647;
  steps = 20;
  width = 512;
  height = 768;
  options = "";
}

abbrev pub two_by_two : BatchRequest
two_by_two = record {
  profile_id = none;
  request = base;
  count = 2;
  step_values = some (10 ∷ 20 ∷ []);
  preview_every = 0;
}

abbrev pub image : String → State → Item
image id state = record {
  id = id;
  state = state;
  progress = whole 0;
  message = "";
  request = base;
  result = none;
  error = none;
  anime_binding = none;
}

abbrev pub first_id : String
first_id = "identity-0123456789abcdef01234567"

abbrev pub second_id : String
second_id = "identity-89abcdef0123456789abcdef"

abbrev pub batch_id : String
batch_id = "batch-0123456789abcdef01234567"

abbrev pub two : List Item
two = image first_id complete ∷ image second_id queued ∷ []

abbrev pub running : Batch
running = record {
  id = batch_id;
  state = sampling;
  request = record two_by_two { step_values = none };
  items = two;
  current_item = 1;
  total_items = 2;
  completed_items = 1;
  step = 20;
  total_steps = 20;
  progress = whole 50;
  stage = "";
  elapsed_ms = 900;
  eta_ms = none;
  preview_url = none;
  error = none;
  parent = none;
  indices = none;
  mode = none;
  key_hash = none;
}

-- Two writes succeed, and the next one fails.
abbrev pub store : Store
store = record {
  records = put batch_id (some running) (λ k. none);
  batch_files = put batch_id (some running) (λ k. none);
  owners = λ k. some batch_id;
  jobs =
      put first_id (some (image first_id complete))
        (put second_id (some (image second_id queued)) (λ k. none));
  job_files = λ k. none;
  samples = λ k i. none;
  pending = λ k. none;
  started = λ k. none;
  clock = 5000;
  writes = true ∷ true ∷ [];
}

abbrev pub outside : Outside
outside = record {
  image =
      λ id. ok (record { size = 5000; is_png = true; width = 512; height = 768; is_intact = true });
  metadata = λ id. ok "{}";
  preview = λ file. ok tt;
  has_paths = λ id. true;
  cleanup = λ id. none;
  ratio = λ a b c. 0;
}

abbrev pub any_request : Params → Bool
any_request p = leb p.steps 50

abbrev pub seeded : ℕ → Params
seeded n = record base { seed = some n }

-- A batch of two images whose second one has failed.
abbrev pub asked : Batch
asked = record running {
  state = failed;
  request = record {
    profile_id = none;
    request = seeded 7;
    count = 2;
    step_values = none;
    preview_every = 0;
  };
  items =
      record (image first_id complete) { request = seeded 7 }
      ∷ record (image second_id failed) { request = seeded 8 }
      ∷ [];
}

abbrev pub saved : String → Option Batch
saved = put batch_id (some asked) (λ k. none)
