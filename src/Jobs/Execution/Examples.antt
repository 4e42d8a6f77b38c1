-- ===== src/Jobs/Execution/Examples.antt =====
-- A job that has just been submitted, cancelled by a client before the second locked section.
use mllm_windows_ai_workbenc.Prelude.{
  ◌≡◌, refl, ◌⊎◌, inl, true, false, none, some, [], ◌∷◌, put, put_self,
}
use mllm_windows_ai_workbenc.Jobs.Runner.{queued, basic, written, torn, saved, GenerateRequest, Job}
use mllm_windows_ai_workbenc.Jobs.Execution.{
  Outside, World, stop, thrown, execute, unavailable, returns, value,
}
use mllm_windows_ai_workbenc.Jobs.Execution.Outcomes.{Terminal, Live}
use mllm_windows_ai_workbenc.Jobs.Execution.Steps.{Delivered, Flaw}
use mllm_windows_ai_workbenc.Jobs.Execution.Endings.{execute_ends}

abbrev request : GenerateRequest
request = record { model_id = "model"; seed = some 7; steps = 20; trace_level = basic }

abbrev submitted : Job
submitted = record {
  id = "job";
  request = request;
  state = queued;
  progress = 0;
  message = "";
  result = none;
  error = none;
}

abbrev outside : Outside
outside = record {
  barriers = [];
  folders_ready = true;
  command_runner = false;
  engine_available = false;
  persistent = unavailable;
  run = returns (record { returncode = 0; stdout = ""; stderr = "" });
  output_exists = true;
  metadata_exists = true;
  metadata = value "{}";
  trace_written = true;
  image_written = true;
  logs_ready = true;
}

abbrev world : World
world = record {
  runner = record {
    jobs = put "job" (some submitted) (λ id. none);
    files = put "job" (some (saved submitted)) (λ id. none);
    cancelled = λ id. false;
    processes = λ id. none;
    native_jobs = λ id. none;
    invocations = λ id. false;
    writes = written ∷ torn ∷ [];
    unsaved = λ id. false;
    terminated = [];
    native_cancels = [];
  };
  arrivals = false ∷ true ∷ [];
}

world-Live : Live "job" world
world-Live = record {
  job = submitted;
  there = put_self "job" (some submitted) (λ id. none);
  unfinished = refl;
  uncancelled = refl;
  unmarked = refl;
}

execute_ends_example :
    ((v : World) × (execute "job" request outside world ≡ stop v)
      × Terminal "job" (Delivered outside) (Flaw outside) v)
    ⊎ ((v : World) × (execute "job" request outside world ≡ thrown v)
        × (Flaw outside ⊎ (v.runner.unsaved "job" ≡ true)))
execute_ends_example = execute_ends "job" request outside world (inl world-Live)
