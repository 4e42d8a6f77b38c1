-- ===== src/Jobs/Runner/Examples.antt =====
-- A job is submitted, cancelled, and then updated by the queue's thread.
use mllm_windows_ai_workbenc.Prelude.{refl, false, none, some, [], ◌∷◌, put, put_self}
use mllm_windows_ai_workbenc.Jobs.Runner.{
  sampling, cancelled, basic, refused, GenerateRequest, Job, Runner, changes, update_if_active,
  submit, cancel,
}
use mllm_windows_ai_workbenc.Jobs.Runner.Saving.{Saved, Fine}
use mllm_windows_ai_workbenc.Jobs.Runner.Reachable.{
  submits, updates, cancels, Steps, none_left, one_more, HasCancelled, Steps-Saved,
  Steps-HasCancelled,
}

abbrev empty : Runner
empty = record {
  jobs = λ id. none;
  files = λ id. none;
  cancelled = λ id. false;
  processes = λ id. none;
  native_jobs = λ id. none;
  invocations = λ id. false;
  writes = refused ∷ [];
  unsaved = λ id. false;
  terminated = [];
  native_cancels = [];
}

abbrev wish : GenerateRequest
wish = record { model_id = "model"; seed = none; steps = 20; trace_level = basic }

abbrev first : Runner
first = (submit "job-1" wish 5 empty).1

abbrev second : Runner
second = (cancel "job-1" first).1

abbrev third : Runner
third = (update_if_active "job-1" (changes sampling 24 "") second).1

abbrev run : Steps empty third
run = one_more empty first third (submits "job-1" wish 5 empty refl) (
    one_more first second third (cancels "job-1" first) (
      one_more second third third (updates "job-1" (changes sampling 24 "") second)
        (none_left third)))

Steps-Saved_example : Saved third × (Fine empty → Fine third)
Steps-Saved_example = Steps-Saved empty third run (λ id j h n. absurd (cc))

abbrev dropped : Job
dropped = record {
  id = "job-1";
  request = wish;
  state = cancelled;
  progress = 0;
  message = "";
  result = none;
  error = none;
}

abbrev stopped : Runner
stopped = record empty { jobs = put "job-1" (some dropped) empty.jobs }

abbrev after : Runner
after = (update_if_active "job-1" (changes sampling 24 "") stopped).1

Steps-HasCancelled_example : HasCancelled "job-1" dropped (cancel "job-1" after).1
Steps-HasCancelled_example =
    Steps-HasCancelled "job-1" dropped stopped (cancel "job-1" after).1
      (one_more stopped after (cancel "job-1" after).1
        (updates "job-1" (changes sampling 24 "") stopped)
        (one_more after (cancel "job-1" after).1 (cancel "job-1" after).1 (cancels "job-1" after)
          (none_left (cancel "job-1" after).1)))
      (put_self "job-1" (some dropped) empty.jobs, refl)
