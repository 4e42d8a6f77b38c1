-- ===== src/Jobs/Runner.antt =====
-- The records of job_runner.py and the operations on them that hold `_lock`.
pub mod Saving
pub mod Reachable
mod Examples
use mllm_windows_ai_workbenc.Prelude.{
  ℕ, String, Bool, true, false, ◌||◌, Option, none, some, List, [], ◌∷◌, if◌then◌else◌, put,
}
use mllm_windows_ai_workbenc.Errors.{
  Result, ok, raise, api, os_error, value_error, key_error, status_error, job_not_found,
}

pub data State : Type 0 where
  queued preparing sampling decoding complete failed cancelled : State

pub data TraceLevel : Type 0 where
  off basic h6 h7 : TraceLevel

-- The fields that the runner itself looks at; `seed` is none for "random".
pub record GenerateRequest : Type 0 where
  pub model_id : String
  pub seed : Option ℕ
  pub steps : ℕ
  pub trace_level : TraceLevel

-- What the image file of a finished job is found by.
pub record JobResult : Type 0 where
  pub id : String
  pub metadata : String

pub record Job : Type 0 where
  pub id : String
  pub request : GenerateRequest
  pub state : State
  pub progress : ℕ
  pub message : String
  pub result : Option JobResult
  pub error : Option String

-- How a write of a job's file ends: it raises an OSError before the file is touched, or midway.
pub data Write : Type 0 where
  written refused torn : Write

-- A job's file: a record, or a text that is no JSON.
pub data File : Type 0 where
  saved : Job → File
  damaged : File

-- `jobs` is `_jobs`, `files` the JSON files, `cancelled` the set of that name, `processes` the
-- native processes with whether they still run, `native_jobs` is `_persistent_jobs`, and
-- `invocations` the runs of the command runner. `writes` are the ends of the coming writes, which
-- succeed after the last one. The last fields log whether the last write of a job's file has failed,
-- and the effects of `cancel`.
pub record Runner : Type 0 where
  pub jobs : String → Option Job
  pub files : String → Option File
  pub cancelled : String → Bool
  pub processes : String → Option Bool
  pub native_jobs : String → Option String
  pub invocations : String → Bool
  pub writes : List Write
  pub unsaved : String → Bool
  pub terminated : List String
  pub native_cancels : List String

abbrev pub is_cancelled_state : State → Bool
is_cancelled_state cancelled = true
is_cancelled_state _ = false

-- state in {"complete", "failed"}
abbrev pub is_finished_state : State → Bool
is_finished_state complete = true
is_finished_state failed = true
is_finished_state _ = false

abbrev pub next_write : List Write → Write
next_write [] = written
next_write (w ∷ ws) = w

abbrev pub later_writes : List Write → List Write
later_writes [] = []
later_writes (w ∷ ws) = ws

abbrev pub write_file : Write → Job → Option File → Option File
write_file written j f = some (saved j)
write_file refused j f = f
write_file torn j f = some damaged

abbrev pub has_failed : Write → Bool
has_failed written = false
has_failed _ = true

-- What the caller gets: `_persist` lets the OSError through.
abbrev pub persisted : {A : Type 0} → Write → A → Result A
persisted written a = ok a
persisted refused a = raise os_error
persisted torn a = raise os_error

-- The change of the record in `_jobs`, and then `_persist`: the record has changed even where the
-- write fails.
unfoldable pub store : String → Job → Runner → Runner
store id j r = record r {
  jobs = put id (some j) r.jobs;
  files = put id (write_file (next_write r.writes) j (r.files id)) r.files;
  writes = later_writes r.writes;
  unsaved = put id (has_failed (next_write r.writes)) r.unsaved;
}

-- The changes that a call of `_update` names.
pub record Changes : Type 0 where
  pub state : State
  pub progress : ℕ
  pub message : String
  pub result : Option JobResult
  pub error : Option String

unfoldable pub change : Changes → Job → Job
change c j = record j {
  state = c.state;
  progress = c.progress;
  message = c.message;
  result = elim c.result [ none ↦ j.result | some x ↦ some x ];
  error = elim c.error [ none ↦ j.error | some x ↦ some x ];
}

abbrev pub changes : State → ℕ → String → Changes
changes s p m = record { state = s; progress = p; message = m; result = none; error = none }

abbrev pub failing : String → String → Changes
failing m e = record { state = failed; progress = 0; message = m; result = none; error = some e }

-- `_update`: a job that is not in memory is a KeyError.
unfoldable pub update : String → Changes → Runner → Result Job × Runner
update id c r = elim (r.jobs id) [
  | none ↦ (raise key_error, r)
  | some j ↦ (persisted (next_write r.writes) (change c j), store id (change c j) r)
]

-- `_is_cancelled`, for a job in memory.
unfoldable pub is_cancelled : String → Runner → Bool
is_cancelled id r =
    r.cancelled id || (elim (r.jobs id) [ none ↦ false | some j ↦ is_cancelled_state j.state ])

-- `_update_if_active`: none where the job has been cancelled.
unfoldable pub update_if_active : String → Changes → Runner → Result (Option Job) × Runner
update_if_active id c r = elim (r.jobs id) [
  | none ↦ (raise key_error, r)
  | some j ↦
      if r.cancelled id || is_cancelled_state j.state
      then (ok none, r)
      else (persisted (next_write r.writes) (some (change c j)), store id (change c j) r)
]

-- The record that `submit` makes for a fresh id; `drawn` is the seed drawn for "random".
unfoldable pub new_job : String → GenerateRequest → ℕ → Job
new_job id request drawn = record {
  id = id;
  request = record request { seed = some (elim request.seed [ none ↦ drawn | some n ↦ n ]) };
  state = queued;
  progress = 2;
  message = "等待本地生成队列";
  result = none;
  error = none;
}

-- The locked part of `submit`; where it returns, the executor then gets the job.
unfoldable pub submit : String → GenerateRequest → ℕ → Runner → Result Job × Runner
submit id request drawn r =
    let j = new_job id request drawn in (persisted (next_write r.writes) j, store id j r)

-- A JSONDecodeError is a ValueError.
unfoldable pub read_file : Option File → Result Job
read_file none = raise (api (status_error job_not_found 404))
read_file (some damaged) = raise value_error
read_file (some (saved j)) = ok j

-- `get`: memory first, then the file.
unfoldable pub get : String → Runner → Result Job
get id r = elim (r.jobs id) [ some j ↦ ok j | none ↦ read_file (r.files id) ]

-- A running process is terminated.
unfoldable pub terminate : String → Option Bool → Runner → Runner
terminate id (some true) r = record r {
  processes = put id (some false) r.processes;
  terminated = id ∷ r.terminated;
}
terminate id (some false) r = r
terminate id none r = r

unfoldable pub cancel_native : Option String → Runner → Runner
cancel_native none r = r
cancel_native (some native) r = record r { native_cancels = native ∷ r.native_cancels }

-- The part of `cancel` for a job in memory, under the lock.
unfoldable pub cancel_loaded : String → Job → Runner → Result Job × Runner
unfolding terminate
cancel_loaded id j r =
    if is_finished_state j.state
    then (ok j, r)
    else if is_cancelled_state j.state
    then (ok j, r)
    else (let c = change (changes cancelled 0 "已取消生成") j in
        (
          persisted (next_write r.writes) c,
          store id c
              (terminate id (r.processes id) (record r { cancelled = put id true r.cancelled })),
        ))

-- After the lock: the native job is cancelled too, unless the job had finished or its record could
-- not be written. The wait for the command runner that follows changes nothing here.
unfoldable pub after_lock : Bool → Option String → Result Job → Runner → Runner
after_lock finished native (raise e) r = r
after_lock true native (ok j) r = r
after_lock false native (ok j) r = cancel_native native r

unfoldable pub cancel_job : String → Job → Runner → Result Job × Runner
cancel_job id j r =
    let (o, r') = cancel_loaded id j r in
    (o, after_lock (is_finished_state j.state) (r.native_jobs id) o r')

unfoldable pub cancel : String → Runner → Result Job × Runner
cancel id r = elim (r.jobs id) [
  | some j ↦ cancel_job id j r
  | none ↦ elim (read_file (r.files id)) [
    | ok j ↦ cancel_job id j (record r { jobs = put id (some j) r.jobs })
    | raise e ↦ (raise e, r)
  ]
]
