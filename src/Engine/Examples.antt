-- ===== src/Engine/Examples.antt =====
-- The engine's life at a small service: it is started, makes an image, and is released.
use mllm_windows_ai_workbenc.Prelude.{
  ◌≡◌, refl, true, false, none, some, [], ◌∷◌, ltb, arith, if◌then◌else◌,
}
use mllm_windows_ai_workbenc.Actions.{PostAt}
use mllm_windows_ai_workbenc.Engine.Model.{
  Capabilities, named, refused, answers, given, Snapshot, object, opened, Facts, finished, Config,
  accepted, decodes, Outside, terminate, await, unlink_state, Client, same_path,
}
use mllm_windows_ai_workbenc.Engine.Identity.{
  partition, option_values, command_option, snapshot_of, release_snapshot, state_unchanged,
  listener_of, release_endpoint, check_loaded, verify_capabilities, claimed, own_address,
  is_same_start, check_bind, check_command, check_start, check_words, check_facts, check_process,
  adopt_opened, adopt_for_release,
}
use mllm_windows_ai_workbenc.Engine.Release.{
  stop_waiting, wait_or_kill, terminate_process, release_adopted, release_engine, clear_state,
  finish_release, release_for_identity,
}
use mllm_windows_ai_workbenc.Engine.Release.Going.{Harmless}
use mllm_windows_ai_workbenc.Engine.Release.Harmless.{Released, release_for_identity-Harmless}
use mllm_windows_ai_workbenc.Engine.Starting.Ready.{Finishes}
use mllm_windows_ai_workbenc.Engine.Generating.{png_signature, generate}
use mllm_windows_ai_workbenc.Jobs.Fallback.{Once, generate-Once}

abbrev loaded : Capabilities
loaded = record { modes = some ("img_gen" ∷ []); model = named "m.gguf" }

abbrev service : Config
service = record {
  base_url = "http://localhost:7860";
  url = record { is_http = true; host = some "localhost"; port = some 7860; is_bare = true };
  executable = "sd-server.exe";
  is_injected = false;
}

abbrev state_file : Snapshot
state_file = record {
  raw = "{}";
  size = 2;
  modified = 50;
  pid = some 7;
  base_url = some "http://localhost:7860";
  model_path = some "m.gguf";
  flash_attention = true;
  executable = given "sd-server.exe";
  start_time = given 40;
}

abbrev engine : Facts
engine = record {
  started = some 40;
  command =
      some (
        "sd-server.exe" ∷ "-m" ∷ "m.gguf" ∷ "--listen-ip=localhost" ∷ "--listen-port" ∷ "7860"
        ∷ []);
  exe = "sd-server.exe";
  listening = ("127.0.0.1", 7860) ∷ [];
}

-- The engine answers from the third call on, and up to the seventh.
abbrev desk : Outside
desk = record {
  normal = λ p. p;
  is_absolute = λ p. true;
  port_text = λ n. "7860";
  has_psutil = true;
  read = λ n. object state_file;
  endpoint = λ n. if ltb n 3 then refused else if ltb n 8 then answers loaded else refused;
  open_process = λ n pid. opened;
  facts = λ n pid. some engine;
  alive = λ n pid. true;
  is_file = λ n. true;
  make_logs = λ n. true;
  spawn = λ n. some 7;
  clock = λ n. n;
  start_timeout = 200;
  submit = λ n. accepted (some "job-1");
  poll = λ n. some record {
    status = if ltb n 22 then "running" else "completed";
    image = decodes png_signature;
  };
  is_cancelled = λ n. false;
  generation_timeout = 150;
  reply = λ n. finished;
}

abbrev idle : Client
idle = record { process = none; flash_verified = false; calls = 0; slept = 0; acts = [] }

release_for_identity-Harmless_example :
    PostAt
      (λ u t. Harmless desk service idle t × Released desk t)
      (λ e t. Harmless desk service idle t)
      (release_for_identity desk service idle)
release_for_identity-Harmless_example = release_for_identity-Harmless desk service idle

-- The engine of an earlier service is asked to end, and its state file is removed.
released :
    (release_for_identity desk service idle).1.acts ≡ unlink_state ∷ await 7 ∷ terminate 7 ∷ []
unfolding release_for_identity release_engine adopt_for_release adopt_opened check_process
    check_facts check_words check_command check_bind check_start is_same_start own_address claimed
    verify_capabilities check_loaded release_endpoint listener_of state_unchanged release_snapshot
    snapshot_of command_option option_values partition same_path release_adopted terminate_process
    wait_or_kill stop_waiting clear_state finish_release
released = refl

generate-Once_example :
    Finishes
      (Once (λ e. "failed") (λ g. "made") desk idle)
      (generate desk service "m.gguf" 2 3 idle)
generate-Once_example =
    generate-Once (λ e. "failed") (λ g. "made") desk service "m.gguf" 2 3 idle (λ m n h. h)
      (omega arith) (omega arith)
