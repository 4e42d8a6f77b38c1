-- ===== src/Jobs/Execution.antt =====
-- `_execute`, `_run_persistent`, `_run_command_runner` and `_run_process` of job_runner.py, on the
-- queue's thread. A client may cancel the job just before any section that holds `_lock`.
pub mod Cancelling
pub mod Outcomes
pub mod Steps
pub mod Native
pub mod Endings
mod Examples
use mllm_windows_ai_workbenc.Prelude.{
  ℕ, zero, suc, String, Bool, true, false, not, ◌&&◌, ◌||◌, Option, none, some, List, [], ◌∷◌, ◌==◌,
  if◌then◌else◌, all_of, put, str_eq,
}
use mllm_windows_ai_workbenc.Errors.{Result, ok, raise}
use mllm_windows_ai_workbenc.Jobs.Runner.{
  State, preparing, sampling, decoding, complete, failed, TraceLevel, off, basic, GenerateRequest,
  JobResult, Job, Runner, Changes, changes, failing, update_if_active, is_cancelled, cancel,
}

-- NativeRunResult
pub record NativeRunResult : Type 0 where
  pub returncode : ℕ
  pub stdout : String
  pub stderr : String

-- The call of the persistent engine with the registry look-up before it: the exceptions that
-- `_run_persistent` tells apart, any other, or an image.
pub data Persistent : Type 0 where
  unavailable engine_cancelled broken : Persistent
  engine_error : String → Persistent
  generated : String → String → Persistent

-- A command or a process: it raises an OSError, another exception, or returns.
pub data Command : Type 0 where
  os_failure : String → Command
  breaks : Command
  returns : NativeRunResult → Command

-- The metadata file: an OSError or a JSONDecodeError with its text, another exception, or a value.
pub data Metadata : Type 0 where
  unreadable : String → Metadata
  undecodable : Metadata
  value : String → Metadata

-- What the code outside this program does in one execution.
pub record Outside : Type 0 where
  pub barriers : List Bool
  pub folders_ready : Bool
  pub command_runner : Bool
  pub engine_available : Bool
  pub persistent : Persistent
  pub run : Command
  pub output_exists : Bool
  pub metadata_exists : Bool
  pub metadata : Metadata
  pub trace_written : Bool
  pub image_written : Bool
  pub logs_ready : Bool

-- The runner, and for each coming locked section whether a cancellation comes first.
pub record World : Type 0 where
  pub runner : Runner
  pub arrivals : List Bool

-- The action goes on, returns from `_execute`, or ends it by an exception.
pub data Exit (A : Type 0) : Type 0 where
  go : A → World → Exit A
  stop thrown : World → Exit A

abbrev pub X : Type 0 → Type 0
X A = World → Exit A

unfoldable pub proceed_with : {A B : Type 0} → Exit A → (A → X B) → Exit B
proceed_with (go a w) k = k a w
proceed_with (stop w) k = stop w
proceed_with (thrown w) k = thrown w

infixl 5 ◌>>=◌ ◌>>◌
unfoldable pub ◌>>=◌ : {A B : Type 0} → X A → (A → X B) → X B
◌>>=◌ m k w = proceed_with (m w) k

unfoldable pub ◌>>◌ : {B : Type 0} → X (Unit {0}) → X B → X B
◌>>◌ m k w = proceed_with (m w) (λ _. k)

unfoldable pub pure : {A : Type 0} → A → X A
pure a w = go a w

-- `if b: m else: k`
unfoldable pub branch : {A : Type 0} → Bool → X A → X A → X A
branch true m k = m
branch false m k = k

unfoldable pub finish : {A : Type 0} → X A
finish w = stop w

unfoldable pub throw : {A : Type 0} → X A
throw w = thrown w

-- An exception unless the condition holds.
unfoldable pub need : Bool → X (Unit {0})
need b w = if b then go tt w else thrown w

unfoldable pub arrive : String → Bool → Runner → Runner
arrive id false r = r
arrive id true r = (cancel id r).1

unfoldable pub next_arrival : List Bool → Bool
next_arrival [] = false
next_arrival (b ∷ bs) = b

unfoldable pub later_arrivals : List Bool → List Bool
later_arrivals [] = []
later_arrivals (b ∷ bs) = bs

-- Taking the lock: what a client did before is seen.
unfoldable pub acquire : String → World → World
acquire id w = record {
  runner = arrive id (next_arrival w.arrivals) w.runner;
  arrivals = later_arrivals w.arrivals;
}

unfoldable pub settle_update : Result (Option Job) × Runner → List Bool → Exit Bool
settle_update (raise e, r) rest = thrown (record { runner = r; arrivals = rest })
settle_update (ok none, r) rest = go false (record { runner = r; arrivals = rest })
settle_update (ok (some j), r) rest = go true (record { runner = r; arrivals = rest })

-- `_update_if_active(...) is not None`
unfoldable pub updated : String → Changes → X Bool
updated id c w = let v = acquire id w in settle_update (update_if_active id c v.runner) v.arrivals

unfoldable pub check_cancelled : String → X Bool
check_cancelled id w = let v = acquire id w in go (is_cancelled id v.runner) v

-- While native code runs, a client may cancel.
unfoldable pub pass_time : String → X (Unit {0})
pass_time id w = go tt (acquire id w)

unfoldable pub stop_unless : Bool → X (Unit {0})
stop_unless b w = if b then go tt w else stop w

-- `if _update_if_active(...) is None: return`
unfoldable pub proceed : String → Changes → X (Unit {0})
proceed id c = do live ← updated id c; stop_unless live

-- The last update of a run, and the return.
unfoldable pub conclude : {A : Type 0} → String → Changes → X A
conclude id c = do written ← updated id c; finish

unfoldable pub set_native : String → Option String → X (Unit {0})
set_native id native w =
    go tt
      (record w { runner = record w.runner { native_jobs = put id native w.runner.native_jobs } })

-- After a successful engine run: a cancellation in between drops the image, and otherwise the image,
-- its metadata and the logs are written, which may fail by an OSError that nothing catches.
unfoldable pub keep_image : String → Bool → String → X (Option NativeRunResult)
keep_image id written summary = do
  dropped ← check_cancelled id
  branch dropped (pure none)
      (do need written; pure (some (record { returncode = 0; stdout = summary; stderr = "" })))

-- `_run_persistent`: `on_submitted` registers the native job, the `finally` drops it again.
unfoldable pub run_persistent : String → Bool → Persistent → X (Option NativeRunResult)
run_persistent id written unavailable = do set_native id none; pure none
run_persistent id written engine_cancelled = do set_native id none; pure none
run_persistent id written broken = do set_native id none; throw
run_persistent id written (engine_error text) = do
  set_native id none
  pure (some (record { returncode = 1; stdout = ""; stderr = text }))
run_persistent id written (generated native summary) = do
  set_native id (some native)
  pass_time id
  set_native id none
  keep_image id written summary

unfoldable pub set_invocation : String → Bool → X (Unit {0})
set_invocation id b w =
    go tt (record w { runner = record w.runner { invocations = put id b w.runner.invocations } })

unfoldable pub set_process : String → Option Bool → X (Unit {0})
set_process id p w =
    go tt (record w { runner = record w.runner { processes = put id p w.runner.processes } })

-- A command runner's exception passes; the `finally` unregisters the run.
unfoldable pub command_result : String → Command → X (Option NativeRunResult)
command_result id (os_failure text) = do set_invocation id false; throw
command_result id breaks = do set_invocation id false; throw
command_result id (returns x) = do set_invocation id false; pure (some x)

unfoldable pub run_command_runner : String → Command → X (Option NativeRunResult)
run_command_runner id c = do
  gone ← check_cancelled id
  branch gone (pure none) (do set_invocation id true; pass_time id; command_result id c)

-- `_run_process` turns an OSError into a failed result.
unfoldable pub process_result : String → Command → X (Option NativeRunResult)
process_result id (os_failure text) = do
  set_process id none
  pure (some (record { returncode = 1; stdout = ""; stderr = text }))
process_result id breaks = do set_process id none; throw
process_result id (returns x) = do set_process id none; pure (some x)

-- Its log folders are made outside of its `try`.
unfoldable pub run_process : String → Bool → Command → X (Option NativeRunResult)
run_process id ready c = do
  need ready
  gone ← check_cancelled id
  branch gone (pure none) (do set_process id (some true); pass_time id; process_result id c)

-- The two branches after the persistent attempt, with their own tests for a cancellation.
unfoldable pub run_native : String → Outside → Option NativeRunResult → X (Option NativeRunResult)
run_native id ext (some x) = pure (some x)
run_native id ext none = do
  gone ← check_cancelled id
  branch (not gone && ext.command_runner) (run_command_runner id ext.run) (do
    still_gone ← check_cancelled id
    branch still_gone (pure none) (run_process id ext.logs_ready ext.run))

unfoldable pub traces_basic : TraceLevel → Bool
traces_basic off = true
traces_basic basic = true
traces_basic _ = false

unfoldable pub is_off : TraceLevel → Bool
is_off off = true
is_off _ = false

-- stderr.strip() or stdout.strip() or "dream-core failed", for texts with no outer white space
unfoldable pub failure_text : NativeRunResult → String
failure_text x =
    if str_eq x.stderr ""
    then (if str_eq x.stdout "" then "dream-core failed" else x.stdout)
    else x.stderr

-- The JSON error text becomes the job's error.
unfoldable pub complete_job : String → Outside → GenerateRequest → Metadata → X (Unit {0})
complete_job id ext request (unreadable text) = conclude id (failing "生成 metadata 无效" text)
complete_job id ext request undecodable = throw
complete_job id ext request (value metadata) = do
  need (is_off request.trace_level || ext.trace_written)
  conclude id (record {
    state = complete;
    progress = 100;
    message = "生成完成";
    result = some (record { id = id; metadata = metadata });
    error = none;
  })

unfoldable pub inspect_output : String → Outside → GenerateRequest → X (Unit {0})
inspect_output id ext request = do
  proceed id (changes decoding 92 "正在检查 PNG 和生成 metadata")
  branch (ext.output_exists && ext.metadata_exists) (complete_job id ext request ext.metadata)
      (conclude id (failing "原生生成未返回完整输出" "PNG or metadata file is missing"))

unfoldable pub judge : String → Outside → GenerateRequest → Option NativeRunResult → X (Unit {0})
judge id ext request none = finish
judge id ext request (some x) = do
  gone ← check_cancelled id
  stop_unless (not gone)
  branch (x.returncode == 0) (inspect_output id ext request)
      (conclude id (failing "原生生成失败" (failure_text x)))

unfoldable pub pass_barriers : String → Outside → X (Unit {0})
pass_barriers id ext = branch (all_of (λ b. b) ext.barriers) (pure tt) (
    conclude id
      (failing "无法确认上一任务已释放 GPU" "GPU release barrier failed; no native generation was started"))

unfoldable pub uses_persistent : Outside → GenerateRequest → Bool
uses_persistent ext request =
    not ext.command_runner && traces_basic request.trace_level && ext.engine_available

unfoldable pub execute : String → GenerateRequest → Outside → X (Unit {0})
execute id request ext = do
  proceed id (changes preparing 12 "正在验证模型并准备 CUDA")
  pass_barriers id ext
  need ext.folders_ready
  let persistent = uses_persistent ext request
  proceed id (
      changes sampling 24
        (if persistent then "正在使用常驻 CUDA 引擎生成" else "正在使用 CUDA 运行 stable-diffusion.cpp"))
  gone ← check_cancelled id
  stop_unless (not gone)
  first ← branch persistent (run_persistent id ext.image_written ext.persistent) (pure none)
  result ← run_native id ext first
  judge id ext request result
